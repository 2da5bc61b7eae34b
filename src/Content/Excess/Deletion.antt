-- ===== src/Content/Excess/Deletion.antt =====
-- Content::deleteExcessFiles: what is deleted of what the search found.
use mediaupdater.Base.{
  ◌≡◌, ◌≢◌, refl, ap, String, ◌<>◌, true, false, arith, Option-cases, inl, inr, List, [], ◌∷◌, ◌++◌,
  ◌<◌, ◌∙◌, sym, subst, string_eq, Bool-cases,
}
use mediaupdater.Base.Text.{with_slash, with_slash_idem}
use mediaupdater.Qt.{Qt, IsLawful}
use mediaupdater.Station.{Station}
use mediaupdater.Content.{is_music, ContentInfo, Content, destination_slash, dir_name_slash}
use mediaupdater.Content.Excess.{
  same_file, take_match, Search, unmatched, search_one, search_all, remove_all, delete_unmatched,
}
use mediaupdater.Content.Excess.Laws.{count, count-search_all}

destination_slash_idem :
    (c : Content) → destination_slash (destination_slash c).0 ≡ destination_slash c
unfolding destination_slash
destination_slash_idem c = ground (arith, with_slash_idem c.dest)

same_file_name : (k x : ContentInfo) → same_file k x ≡ true → k.file_name ≡ x.file_name
unfolding same_file
same_file_name k x h = ground arith

module _ (Q : Qt) (L : IsLawful Q) (st : Station) (dir : String) where
  remove_all_absent :
      (path : String) (infos : List ContentInfo) (w : Q.World)
      → Q.exists path w ≡ false
      → Q.exists path (remove_all Q st dir infos w) ≡ false
  unfolding remove_all
  remove_all_absent path [] w h = h
  remove_all_absent path (i ∷ is) w h =
      remove_all_absent path is (Q.remove_file (dir <> i.file_name) w).0
        (elim (string_eq.dec path (dir <> i.file_name)) [
          | yes e ↦ rw e (L.exists-remove_file_absent (dir <> i.file_name) w (rw e at h))
          | no n ↦ L.exists-remove_file_ne (dir <> i.file_name) path w n ∙ h
        ])

  remove_file_gone :
      (path : String) (w : Q.World)
      → (Q.exists path w ≡ true → (Q.remove_file path w).1 ≡ true)
      → Q.exists path (Q.remove_file path w).0 ≡ false
  remove_file_gone path w free = elim (Bool-cases (Q.exists path w)) [
    | inl e ↦ L.exists-remove_file path w (free e)
    | inr e ↦ L.exists-remove_file_absent path w e
  ]

  -- Every file of the list is gone at the end, if the disk lets go of the files that are there.
  remove_all_gone :
      (k : ContentInfo) (infos : List ContentInfo) (w : Q.World)
      → ((path : String) (v : Q.World) → Q.exists path v ≡ true → (Q.remove_file path v).1 ≡ true)
      → 0 < count k infos
      → Q.exists (dir <> k.file_name) (remove_all Q st dir infos w) ≡ false
  unfolding remove_all same_file
  remove_all_gone k [] w free h = absurd (omega arith)
  remove_all_gone k (i ∷ is) w free h = elim (Bool-cases (same_file k i)) [
    | inl e ↦ remove_all_absent (dir <> k.file_name) is (Q.remove_file (dir <> i.file_name) w).0 (
        subst (λ name. Q.exists (dir <> name) (Q.remove_file (dir <> i.file_name) w).0 ≡ false)
          (sym (same_file_name k i e))
          (remove_file_gone (dir <> i.file_name) w (free (dir <> i.file_name) w)))
    | inr e ↦ remove_all_gone k is (Q.remove_file (dir <> i.file_name) w).0 free (ground arith)
  ]

module _ (Q : Qt) (st : Station) (c : Content) (w : Q.World) where
  destination-unmatched :
      (x : ContentInfo) (s : Search Q st)
      → is_music c.content_type ≡ false
      → (unmatched Q st c x w s).destination ≡ s.destination
  unfolding unmatched
  destination-unmatched x s h = ground arith

  destination-search_all :
      (sources : List ContentInfo) (s : Search Q st)
      → is_music c.content_type ≡ false
      → (search_all Q st c sources w s).destination ≡ s.destination
  unfolding search_all
  destination-search_all [] s h = refl
  destination-search_all (x ∷ sources) s h = elim (Option-cases (take_match x s.standart)) [
    | inl e ↦ ground (
      arith,
      destination-unmatched x s h,
      destination-search_all sources (unmatched Q st c x w s) h,
    )
    | inr (left, e) ↦
        ground (arith, destination-search_all sources (record s { standart = left }) h)
  ]

module _ (Q : Qt) (L : IsLawful Q) (st : Station) where
  -- For adverts, a file that the directory lists beyond the standard list is gone in the end, if
  -- the disk lets go of the files that are there.
  pub delete_unmatched_gone :
      (c : Content) (k : ContentInfo) (w : Q.World)
      → is_music c.content_type ≡ false
      → ((path : String) (v : Q.World) → Q.exists path v ≡ true → (Q.remove_file path v).1 ≡ true)
      → count k c.standart_source_files < count k c.source_list
      → Q.exists ((destination_slash c).1 <> k.file_name) (delete_unmatched Q st (c, w)).0.1 ≡ false
  unfolding delete_unmatched destination_slash
  delete_unmatched_gone c k w no_music free more =
      let (c', dest) = destination_slash c in
      let start : Search Q st = record {
        standart = c.standart_source_files;
        destination = dest;
        excess = [];
      } in
      let found = search_all Q st c' c.source_list w start in
      ground (
        arith,
        destination-search_all Q st c' w c.source_list start no_music,
        count-search_all Q st c' w k c.source_list start,
        remove_all_gone Q L st dest k found.excess w free,
        remove_all_absent Q L st dest (dest <> k.file_name) found.excess w,
      )

module _ (Q : Qt) (st : Station) (c : Content) (w : Q.World) (is_m : is_music c.content_type ≡ true)
    (dest : String) (settled : (destination_slash c).1 ≡ dest) where
  abbrev music_dir_of : ContentInfo → String
  music_dir_of x = dest <> dir_name_slash x

  -- A file that exists and matches nothing is found, and its directory becomes the destination.
  search_one_here :
      (x : ContentInfo) (d : String) (es : List ContentInfo)
      → Q.exists (music_dir_of x <> x.file_name) w ≡ true
      → search_one Q st c x w (record { standart = []; destination = d; excess = es })
        ≡ record { standart = []; destination = music_dir_of x; excess = es ++ (x ∷ []) }
  unfolding search_one take_match
  search_one_here x d es here = ground (arith, ap (λ t. t <> dir_name_slash x) settled)

  -- Two such files are both found, in the directory of the second.
  search_two :
      (a b : ContentInfo) (d : String)
      → Q.exists (music_dir_of a <> a.file_name) w ≡ true
      → Q.exists (music_dir_of b <> b.file_name) w ≡ true
      → search_all Q st c (a ∷ b ∷ []) w (record { standart = []; destination = d; excess = [] })
        ≡ record { standart = []; destination = music_dir_of b; excess = a ∷ b ∷ [] }
  unfolding search_all
  search_two a b d here_a here_b =
      ap (search_all Q st c (b ∷ []) w) (search_one_here a d [] here_a)
      ∙ search_one_here b (music_dir_of a) (a ∷ []) here_b

module _ (Q : Qt) (L : IsLawful Q) (st : Station) where
  -- For music the directory of the last file found serves all of them: with no standard file
  -- and two excess files, both on disk, the first stays in its own directory, if it is neither
  -- file that the second's directory is searched for.
  pub delete_unmatched_music :
      (c : Content) (a b : ContentInfo) (w : Q.World)
      → is_music c.content_type ≡ true
      → let found = record c { source_list = a ∷ b ∷ []; standart_source_files = [] } in
        let dest = with_slash c.dest in
        let own = (dest <> dir_name_slash a) <> a.file_name in
        let dir = dest <> dir_name_slash b in
        Q.exists own w ≡ true
        → Q.exists (dir <> b.file_name) w ≡ true
        → own ≢ dir <> a.file_name
        → own ≢ dir <> b.file_name
        → let w' = (delete_unmatched Q st (found, w)).0.1 in
          (w' ≡ remove_all Q st dir (a ∷ b ∷ []) w) × (Q.exists own w' ≡ true)
  unfolding delete_unmatched destination_slash
  delete_unmatched_music c a b w is_m here_a here_b ne_a ne_b =
      let dest = with_slash c.dest in
      let c' : Content = record c {
        source_list = a ∷ b ∷ [];
        standart_source_files = [];
        dest = dest;
      } in
      let own = (dest <> dir_name_slash a) <> a.file_name in
      let dir = dest <> dir_name_slash b in
      ground (
        arith,
        search_two Q st c' w is_m dest (with_slash_idem c.dest) a b dest here_a here_b,
        L.exists-remove_file_ne (dir <> a.file_name) own w ne_a,
        L.exists-remove_file_ne (dir <> b.file_name) own (Q.remove_file (dir <> a.file_name) w).0
            ne_b,
      )
