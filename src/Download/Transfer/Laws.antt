-- ===== src/Download/Transfer/Laws.antt =====
-- DownloadManager: what the end of a transfer records of its file.
use mediaupdater.Base.{◌≡◌, String, Bool, true, false, not, ◌&&◌, ◌||◌, some, arith, if◌then◌else◌}
use mediaupdater.Qt.{Qt, IsLawful}
use mediaupdater.Station.{Station}
use mediaupdater.Check.{trust, set_trust, check_rev, status_code, download_ok, download_fail}
use mediaupdater.Check.Laws.{trust-set_trust, check_rev-set_rev}
use mediaupdater.Download.{Downloads}
use mediaupdater.Download.Transfer.{current_path, set_marks, report_progress, download_finished}

module _ (Q : Qt) (L : IsLawful Q) (st : Station) where
  set_marks_content :
      (exists no_error : Bool) (d : Downloads Q) (w : Q.World)
      → d.revision ≡ false
      → trust Q st d.login_info.box_id d.current (set_marks Q st exists no_error d w) ≡ (
          exists && (not d.download_timed_out && no_error || d.full_download_bytes)
          || trust Q st d.login_info.box_id d.current w)
  unfolding set_marks
  set_marks_content exists no_error d w h =
      let box_id = d.login_info.box_id in
      ground (
        arith,
        trust-set_trust Q L st box_id d.current w,
        trust-set_trust Q L st box_id d.current (set_trust Q st box_id d.current w),
      )

  set_marks_revision :
      (exists no_error : Bool) (d : Downloads Q) (w : Q.World)
      → d.revision ≡ true
      → check_rev Q st d.login_info.box_id d.current.file_name (set_marks Q st exists no_error d w)
        ≡ status_code (
            if exists && (not d.download_timed_out && no_error) then download_ok else download_fail)
  unfolding set_marks
  set_marks_revision exists no_error d w h =
      let box_id = d.login_info.box_id in
      ground (
        arith,
        check_rev-set_rev Q L st box_id d.current.file_name download_ok w,
        check_rev-set_rev Q L st box_id d.current.file_name download_fail w,
      )

  world-report_progress : (d : Downloads Q) → (report_progress Q st d).world ≡ d.world
  unfolding report_progress
  world-report_progress d = ground arith

  world-download_finished :
      (no_error : Bool) (d e d' : Downloads Q) (dir path : String)
      → current_path Q st d ≡ some (e, dir, path)
      → download_finished Q st no_error d ≡ some d'
      → d'.world ≡ set_marks Q st (Q.exists path d.world) no_error d d.world
  unfolding download_finished
  world-download_finished no_error d e d' dir path h r =
      ground (arith, λ (d'' : Downloads Q). world-report_progress d'')

  -- When a transfer of the content phase ends, with its content there, its file is trusted
  -- exactly if it was before, or it is on disk and came without error and timeout, or in full.
  pub trust-download_finished :
      (no_error : Bool) (d e d' : Downloads Q) (dir path : String)
      → d.revision ≡ false
      → current_path Q st d ≡ some (e, dir, path)
      → download_finished Q st no_error d ≡ some d'
      → trust Q st d.login_info.box_id d.current d'.world ≡ (
          Q.exists path d.world && (not d.download_timed_out && no_error || d.full_download_bytes)
          || trust Q st d.login_info.box_id d.current d.world)
  trust-download_finished no_error d e d' dir path content h r =
      rw (world-download_finished no_error d e d' dir path h r)
        (set_marks_content (Q.exists path d.world) no_error d d.world content)

  -- When one of the revision phase ends, with its content there, the status of its file says
  -- whether it is on disk and came without error and timeout.
  pub check_rev-download_finished :
      (no_error : Bool) (d e d' : Downloads Q) (dir path : String)
      → d.revision ≡ true
      → current_path Q st d ≡ some (e, dir, path)
      → download_finished Q st no_error d ≡ some d'
      → check_rev Q st d.login_info.box_id d.current.file_name d'.world
        ≡ status_code (
            if Q.exists path d.world && (not d.download_timed_out && no_error)
            then download_ok
            else download_fail)
  check_rev-download_finished no_error d e d' dir path rev h r =
      rw (world-download_finished no_error d e d' dir path h r)
        (set_marks_revision (Q.exists path d.world) no_error d d.world rev)
