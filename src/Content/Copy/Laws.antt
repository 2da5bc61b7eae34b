-- ===== src/Content/Copy/Laws.antt =====
-- Content::copyToDestination: what a file that arrived leaves at its two ends, and when a revision
-- file is replaced.
use mediaupdater.Base.{
  ◌≡◌, ◌≢◌, String, true, false, some, arith, Option-cases, inl, inr, string_eq,
}
use mediaupdater.Base.Int.{pos, int_eq}
use mediaupdater.Qt.{Qt, IsLawful}
use mediaupdater.Station.{Station}
use mediaupdater.Content.{is_revision, ContentInfo, Content}
use mediaupdater.Content.Copy.{
  source_of, target_of, target_dir, transfer, revision_changed, copy_one, text_or_empty,
}
use mediaupdater.Check.{check_storage, mark_key, trust, remove, check_rev, rev_storage}

module _ (Q : Qt) (L : IsLawful Q) (st : Station) (c : Content) (info : ContentInfo) where
  abbrev source : String
  source = source_of c info

  abbrev target : String
  target = target_of c info

  read-remove :
      (path : String) (w : Q.World)
      → path ≢ check_storage Q st c.box_id
      → Q.read path (remove Q st c.box_id info w) ≡ Q.read path w
  unfolding remove
  read-remove path w h =
      L.read-remove_setting (check_storage Q st c.box_id) (mark_key Q st c.box_id info) path w h

  trust-remove : (w : Q.World) → trust Q st c.box_id info (remove Q st c.box_id info w) ≡ false
  unfolding trust remove
  trust-remove w = ground (
    arith,
    L.setting-remove_setting (check_storage Q st c.box_id) (mark_key Q st c.box_id info) w,
  )

  transfer_arrives :
      (w : Q.World)
      → source ≢ target
      → target ≢ check_storage Q st c.box_id
      → (transfer Q st c info w).1 ≡ true
      → (Q.read target (transfer Q st c info w).0 ≡ Q.read source w)
        × (trust Q st c.box_id info (transfer Q st c info w).0 ≡ false)
  unfolding transfer
  transfer_arrives w apart kept ok =
      let gone = (Q.remove_file target w).0 in
      ground (
        arith,
        L.read-remove_file target source w apart,
        L.read-rename_file source target w,
        L.read-rename_file source target gone,
        L.read-copy_file source target w,
        L.read-copy_file source target gone,
        read-remove target (Q.rename_file source target w).0 kept,
        read-remove target (Q.rename_file source target gone).0 kept,
        read-remove target (Q.copy_file source target w).0 kept,
        read-remove target (Q.copy_file source target gone).0 kept,
        trust-remove (Q.rename_file source target w).0,
        trust-remove (Q.rename_file source target gone).0,
        trust-remove (Q.copy_file source target w).0,
        trust-remove (Q.copy_file source target gone).0,
      )

  -- A file that arrived reads at its target as it read at its source before, and its mark is
  -- gone, if its source is not its target and its target is not the store of the marks.
  pub copy_one_arrives :
      (w : Q.World)
      → source_of c info ≢ target_of c info
      → target_of c info ≢ check_storage Q st c.box_id
      → (copy_one Q st c info w).1 ≡ true
      → let w' = (copy_one Q st c info w).0 in
        (Q.read (target_of c info) w' ≡ Q.read (source_of c info) w)
        × (trust Q st c.box_id info w' ≡ false)
  unfolding copy_one
  copy_one_arrives w apart kept ok =
      let made = Q.mkpath (target_dir c info) w in
      ground (arith, transfer_arrives made apart kept, L.read-mkpath (target_dir c info) source w)

  revision_changed_cases :
      (w : Q.World)
      → revision_changed Q st c.box_id source target w ≡ true
      → (check_rev Q st c.box_id (Q.file_name source) w ≡ pos 1)
        × ((new : String) × (Q.read source w ≡ some new)
            × (new ≢ text_or_empty Q st (Q.read target w)))
  unfolding revision_changed
  revision_changed_cases w h = elim (Option-cases (Q.read source w)) [
    | inl e ↦ absurd (ground arith)
    | inr (new, e) ↦ (ground arith, (new, e, ground arith))
  ]

  -- A revision file arrives only if its download is recorded as whole, and it can be read and
  -- differs from the current file, or from the empty text where that cannot be read.
  pub copy_one_revision :
      (w : Q.World)
      → is_revision c.content_type ≡ true
      → (copy_one Q st c info w).1 ≡ true
      → (check_rev Q st c.box_id (Q.file_name (source_of c info)) w ≡ pos 1)
        × ((new : String) × (Q.read (source_of c info) w ≡ some new)
            × (new ≢ text_or_empty Q st (Q.read (target_of c info) w)))
  unfolding copy_one check_rev
  copy_one_revision w rev ok =
      let made = Q.mkpath (target_dir c info) w in
      let (whole, (new, e, differs)) = revision_changed_cases made (ground arith) in
      (
        ground (
          arith,
          L.setting-mkpath (target_dir c info) (rev_storage Q st c.box_id) (Q.file_name source) w,
        ),
        (
          new,
          ground (arith, L.read-mkpath (target_dir c info) source w),
          ground (arith, L.read-mkpath (target_dir c info) target w),
        ),
      )
