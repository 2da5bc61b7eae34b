-- ===== src/Content/Collect/Owner.antt =====
-- The collectors leave a content at its address, and what they add points to it.
use mediaupdater.Base.{
  ◌≡◌, refl, String, true, false, List, [], ◌∷◌, arith, ℕ, Option-cases, inl, inr, if◌then◌else◌,
  if_both,
}
use mediaupdater.Base.Text.{split, is_empty, before}
use mediaupdater.Qt.{Qt}
use mediaupdater.Station.{Station, advert_dir, music_dir}
use mediaupdater.Content.{
  ContentType, music, advert, revision, report, is_music, ContentInfo, Content, append_info,
  append_infos, info_at,
}
use mediaupdater.Content.Owner.{IsAt, append_info-IsAt, append_infos-IsAt, destination_slash-IsAt}
use mediaupdater.Check.{check_file}
use mediaupdater.Content.Collect.{
  State, channel_dir, channel_file, collect_of_type, checked_files, each_dir_with_check,
  check_exist_file, advert_lines, channel_line, channel_lines, table_text, collect_adverts,
  collect_channels, collect_content_from_file, collect_content_from_dir_with_check,
  collect_content_from_path_with_check, collect_reports,
}

module _ (Q : Qt) (st : Station) (a : ℕ) (t : ContentType) where
  -- A collector's step keeps a content at its address.
  abbrev Keeps : (State Q st → State Q st) → Type 0
  Keeps f = (s : State Q st) → IsAt a t s.0 → IsAt a t (f s).0

  check_file-IsAt :
      (box_id : String) (info : ContentInfo) (c : Content) (w : Q.World)
      → IsAt a t c
      → IsAt a t (check_file Q st box_id info c w).0
  unfolding check_file
  check_file-IsAt box_id info c w h = ground (arith, destination_slash-IsAt a t c h)

  check_exist_file-IsAt : (dir file : String) → Keeps (λ s. (check_exist_file Q st dir file s).0)
  unfolding check_exist_file
  check_exist_file-IsAt dir file (c, w) h =
      check_file-IsAt c.box_id (info_at c.address dir file) c w h

  advert_lines-IsAt :
      (dir : String) (lines : List String) → Keeps (λ s. (advert_lines Q st dir lines s).0)
  unfolding advert_lines
  advert_lines-IsAt dir [] s h = h
  advert_lines-IsAt dir (line ∷ lines) s h =
      let name = before b';' line in
      let found = check_exist_file Q st dir name s in
      advert_lines-IsAt dir lines (if is_empty name then (s, true) else found).0 (
        if_both (λ r. IsAt a t r.0.0) (is_empty name) (s, true) found h
          (check_exist_file-IsAt dir name s h))

  channel_line-IsAt : (line : String) → Keeps (channel_line Q st line)
  unfolding channel_line
  channel_line-IsAt line (c, w) h =
      let dir = channel_dir line in
      let file = channel_file line in
      let listed = append_info dir file true c in
      let found = check_exist_file Q st dir file (listed, w) in
      let kept =
        check_exist_file-IsAt dir file (listed, w) (append_info-IsAt a t dir file true c h) in
      if_both (IsAt a t) found.1 found.0.0 (append_info dir file false found.0.0) kept
        (append_info-IsAt a t dir file false found.0.0 kept)

  channel_lines-IsAt : (lines : List String) → Keeps (channel_lines Q st lines)
  unfolding channel_lines
  channel_lines-IsAt [] s h = h
  channel_lines-IsAt (line ∷ lines) s h =
      channel_lines-IsAt lines (if is_empty line then s else channel_line Q st line s) (
        if_both (λ r. IsAt a t r.0) (is_empty line) s (channel_line Q st line s) h
          (channel_line-IsAt line s h))

  collect_adverts-IsAt : (file : String) → Keeps (collect_adverts Q st file)
  unfolding collect_adverts
  collect_adverts-IsAt file (c, w) h = elim (Option-cases (table_text Q st c.box_id file w)) [
    | inl e ↦ rw (collect_adverts, e) h
    | inr (text, e) ↦
        (let lines = split b'\n' text in
          let r = advert_lines Q st advert_dir lines (c, w) in
          rw (collect_adverts, e)
            (append_infos-IsAt a t advert_dir r.2 true (append_infos advert_dir r.1 false r.0.0) (
              append_infos-IsAt a t advert_dir r.1 false r.0.0
                (advert_lines-IsAt advert_dir lines (c, w) h))))
  ]

  collect_channels-IsAt : (file : String) → Keeps (collect_channels Q st file)
  unfolding collect_channels
  collect_channels-IsAt file (c, w) h = elim (Option-cases (table_text Q st c.box_id file w)) [
    | inl e ↦ rw (collect_channels, e) h
    | inr (text, e) ↦ rw (collect_channels, e) (channel_lines-IsAt (split b'\n' text) (c, w) h)
  ]

  -- The table of a content starts from an empty list, whatever the content listed.
  pub collect_content_from_file-IsAt :
      (file : String) (c : Content) (w : Q.World)
      → c.address ≡ a
      → c.content_type ≡ t
      → IsAt a t (collect_content_from_file Q st file (c, w)).0
  unfolding collect_content_from_file
  collect_content_from_file-IsAt file c w h k = go c.content_type k
    where
      fresh :
          (c' : Content) → c'.address ≡ a → c'.content_type ≡ t → c'.source_list ≡ [] → IsAt a t c'
      fresh c' p q r = record { address_is = p; type_is = q; entries_are = rw r refl }

      go : (u : ContentType) → c.content_type ≡ t → IsAt a t (collect_of_type Q st u file (c, w)).0
      go music e =
          collect_channels-IsAt file (record c { source_list = []; source_dir = music_dir }, w)
            (record { address_is = h; type_is = e; entries_are = refl })
      go advert e =
          collect_adverts-IsAt file (record c { source_list = []; source_dir = advert_dir }, w)
            (record { address_is = h; type_is = e; entries_are = refl })
      go revision e = record { address_is = h; type_is = e; entries_are = refl }
      go report e = record { address_is = h; type_is = e; entries_are = refl }

  checked_files-IsAt :
      (dir : String) (files : List String) → Keeps (λ s. (checked_files Q st dir files s).0)
  unfolding checked_files
  checked_files-IsAt dir [] s h = h
  checked_files-IsAt dir (file ∷ files) (c, w) h =
      let r = check_file Q st c.box_id (info_at c.address dir file) c w in
      checked_files-IsAt dir files (r.0, r.1)
        (check_file-IsAt c.box_id (info_at c.address dir file) c w h)

  pub collect_content_from_dir_with_check-IsAt :
      (dir : String) → Keeps (collect_content_from_dir_with_check Q st dir)
  unfolding collect_content_from_dir_with_check
  collect_content_from_dir_with_check-IsAt dir (c, w) h =
      let files = Q.entry_files dir w in
      let name = Q.dir_name dir in
      let r = checked_files Q st name files (c, w) in
      append_infos-IsAt a t name r.1 false r.0.0 (checked_files-IsAt name files (c, w) h)

  each_dir_with_check-IsAt : (dirs : List String) → Keeps (each_dir_with_check Q st dirs)
  unfolding each_dir_with_check
  each_dir_with_check-IsAt [] s h = h
  each_dir_with_check-IsAt (dir ∷ dirs) s h =
      each_dir_with_check-IsAt dirs (collect_content_from_dir_with_check Q st dir s)
        (collect_content_from_dir_with_check-IsAt dir s h)

  pub collect_content_from_path_with_check-IsAt :
      (path : String) → Keeps (collect_content_from_path_with_check Q st path)
  unfolding collect_content_from_path_with_check
  collect_content_from_path_with_check-IsAt path (c, w) h =
      let dirs = Q.entry_dirs path w in
      if_both (λ r. IsAt a t r.0) (is_music c.content_type) (each_dir_with_check Q st dirs (c, w))
        (c, w) (each_dir_with_check-IsAt dirs (c, w) h) h

  pub collect_reports-IsAt : Keeps (collect_reports Q st)
  unfolding collect_reports
  collect_reports-IsAt (c, w) h =
      append_infos-IsAt a t (Q.dir_name c.source_dir) (Q.entry_files c.source_dir w) false c h
