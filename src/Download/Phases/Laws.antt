-- ===== src/Download/Phases/Laws.antt =====
-- DownloadManager: when the server's revision is taken over.
use mediaupdater.Base.{
  ◌≡◌, ◌≢◌, String, true, false, not, ◌&&◌, ◌==◌, some, arith, Option-cases, inl, inr,
  if◌then◌else◌,
}
use mediaupdater.Base.Int.{pos, ltb_ℤ, int_eq}
use mediaupdater.Base.Lists.{all}
use mediaupdater.Qt.{Qt}
use mediaupdater.Station.{Station, rev_local, rev_server, set_rev_local}
use mediaupdater.Check.{trust}
use mediaupdater.Check.Files.{check_all_files}
use mediaupdater.Check.Files.Laws.{check_all_files-result, check_all_files_passed}
use mediaupdater.Manager
use mediaupdater.Download.{Downloads}
use mediaupdater.Download.Phases.{take_revision, check_revision}

module _ (Q : Qt) (st : Station) where
  -- At the end of the content phase, if every file of it is marked as whole and its content is
  -- there, the revision of the server is stored where it is positive and another one than the
  -- local; and nothing else is changed on the machine.
  pub take_revision_whole :
      (d d' : Downloads Q)
      → take_revision Q st d ≡ some d'
      → all (λ info. trust Q st d.login_info.box_id info d.world) (Manager.content_files d.manager)
        ≡ true
      → let box_id = d.login_info.box_id in
        let server = rev_server Q st box_id d.world in
        d'.world ≡ (
          if ltb_ℤ (pos 0) server && not (rev_local Q st box_id d.world == server)
          then set_rev_local Q st server box_id d.world
          else d.world)
  unfolding take_revision check_revision
  take_revision_whole d d' r whole =
      elim (Option-cases (
        check_all_files Q st d.login_info.box_id (Manager.content_files d.manager)
          (d.manager.content_map, d.world))) [
            | inl e ↦ absurd (ground arith)
            | inr (((m, w), passed), e) ↦ ground (
              arith,
              check_all_files-result Q st d.login_info.box_id (Manager.content_files d.manager)
                  (d.manager.content_map, d.world) (m, w) passed e,
              check_all_files_passed Q st d.login_info.box_id (Manager.content_files d.manager)
                  (d.manager.content_map, d.world) (m, w) passed e,
            )
          ]

  -- With a file that is not marked as whole, the revision is not stored: the machine is as the
  -- check of the files left it.
  pub take_revision_partial :
      (d d' : Downloads Q)
      → take_revision Q st d ≡ some d'
      → all (λ info. trust Q st d.login_info.box_id info d.world) (Manager.content_files d.manager)
        ≡ false
      → check_all_files Q st d.login_info.box_id
          (Manager.content_files d.manager)
          (d.manager.content_map, d.world)
        ≡ some ((d'.manager.content_map, d'.world), false)
  unfolding take_revision
  take_revision_partial d d' r part =
      elim (Option-cases (
        check_all_files Q st d.login_info.box_id (Manager.content_files d.manager)
          (d.manager.content_map, d.world))) [
            | inl e ↦ absurd (ground arith)
            | inr (((m, w), passed), e) ↦ ground (
              arith,
              check_all_files-result Q st d.login_info.box_id (Manager.content_files d.manager)
                  (d.manager.content_map, d.world) (m, w) passed e,
            )
          ]

  check_revision_cases :
      (box_id : String) (w : Q.World)
      → check_revision Q st box_id w ≡ true
      → rev_local Q st box_id w ≢ rev_server Q st box_id w
  unfolding check_revision
  check_revision_cases box_id w h = ground arith
