-- ===== src/Content/Collect/Laws.antt =====
-- Content::collectContentFromFile: what the tables make of a content.
use mediaupdater.Base.{
  ℕ, ◌≡◌, String, ◌<>◌, Bool, true, ◌||◌, List, [], ◌∷◌, ◌++◌, arith, if◌then◌else◌, Bool-cases,
  inl, inr,
}
use mediaupdater.Base.Lists.{append_nil, append_assoc}
use mediaupdater.Base.Text.{is_empty}
use mediaupdater.Qt.{Qt}
use mediaupdater.Station.{Station, media}
use mediaupdater.Content.{ContentInfo, Content, ContentType, info_at, info_of, append_info}
use mediaupdater.Content.Collect.{
  local_dir, check_exist_file, channel_dir, channel_file, channel_line, channel_lines,
}
use mediaupdater.Check.{trust}
use mediaupdater.Check.Laws.{check_file-local}

-- The entries that a channel table lists for a content at address `a`, empty lines skipped.
abbrev pub channel_entries : ℕ → List String → List ContentInfo
channel_entries a [] = []
channel_entries a (line ∷ lines) =
    if is_empty line
    then channel_entries a lines
    else info_at a (channel_dir line) (channel_file line) ∷ channel_entries a lines

module _ (Q : Qt) (st : Station) where
  -- A file is known if it is marked as whole, or lies in the media directory already.
  abbrev pub known : String → ContentType → Q.World → String → String → Bool
  known box_id type w dir file =
      trust Q st box_id (info_at 0 dir file) w
      || Q.exists (media Q st "" <> (local_dir type <> (dir <> ("/" <> file)))) w

  -- Those of the entries that are not known.
  abbrev pub channel_missing : ℕ → String → ContentType → Q.World → List String → List ContentInfo
  channel_missing a box_id type w [] = []
  channel_missing a box_id type w (line ∷ lines) =
      if is_empty line || known box_id type w (channel_dir line) (channel_file line)
      then channel_missing a box_id type w lines
      else info_at a (channel_dir line) (channel_file line) ∷ channel_missing a box_id type w lines

  check_exist_file-local :
      (dir file : String) (c : Content) (w : Q.World)
      → c.local ≡ true
      → check_exist_file Q st dir file (c, w) ≡ ((c, w), known c.box_id c.content_type w dir file)
  unfolding check_exist_file info_at trust
  check_exist_file-local dir file c w h =
      rw (check_file-local Q st c.box_id (info_of c dir file) c w h)

  -- One line of the table, if it is not empty.
  channel_line-local :
      (line : String) (c : Content) (w : Q.World)
      → c.local ≡ true
      → let entry = info_at c.address (channel_dir line) (channel_file line) in
        channel_line Q st line (c, w) ≡ (
          record c {
            source_list =
                c.source_list
                ++ (if known c.box_id c.content_type w (channel_dir line) (channel_file line)
                    then []
                    else entry ∷ []);
            standart_source_files = c.standart_source_files ++ (entry ∷ []);
          },
          w,
        )
  unfolding channel_line append_info
  channel_line-local line c w h =
      let dir = channel_dir line in
      let file = channel_file line in
      let listed = append_info dir file true c in
      ground (arith, check_exist_file-local dir file listed w h, append_nil c.source_list)

  -- For a local content the channel table adds its entries to the standard files, those that are
  -- not known to the sources, and changes nothing else, on the machine neither.
  channel_lines-local :
      (lines : List String) (c : Content) (w : Q.World)
      → c.local ≡ true
      → channel_lines Q st lines (c, w) ≡ (
        record c {
          source_list = c.source_list ++ channel_missing c.address c.box_id c.content_type w lines;
          standart_source_files = c.standart_source_files ++ channel_entries c.address lines;
        },
        w,
      )
  unfolding channel_lines
  channel_lines-local [] c w h = rw (append_nil c.source_list, append_nil c.standart_source_files)
  channel_lines-local (line ∷ lines) c w h = elim (Bool-cases (is_empty line)) [
    | inl e ↦ rw e (channel_lines-local lines c w h)
    | inr e ↦
        let entry = info_at c.address (channel_dir line) (channel_file line) in
        let new =
          if known c.box_id c.content_type w (channel_dir line) (channel_file line)
          then []
          else entry ∷ [] in
        let c' : Content = record c {
          source_list = c.source_list ++ new;
          standart_source_files = c.standart_source_files ++ (entry ∷ []);
        } in
        let entries = channel_entries c.address lines in
        let missing = channel_missing c.address c.box_id c.content_type w lines in
        ground (
          arith,
          channel_line-local line c w h,
          channel_lines-local lines c' w h,
          append_assoc c.source_list new missing,
          append_assoc c.standart_source_files (entry ∷ []) entries,
        )
  ]
