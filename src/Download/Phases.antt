-- ===== src/Download/Phases.antt =====
-- updater/downloadmanager.cpp: the revision phase, the content phase and the step between files.
pub mod Laws
use mediaupdater.Base.{
  ℕ, String, ◌<>◌, Bool, true, false, not, ◌&&◌, ◌||◌, Option, none, some, List, [], ◌∷◌, ◌++◌,
  if◌then◌else◌, ◌==◌,
}
use mediaupdater.Base.Int.{ℤ, pos, int_eq, leb_ℤ}
use mediaupdater.Base.Lists.{length}
use mediaupdater.Qt.{Qt}
use mediaupdater.LoginInfo.{LoginInfo}
use mediaupdater.Station.{Station, rev_local, rev_server, set_rev_local}
use mediaupdater.Content.{ContentType, music, advert, revision, report, ContentInfo}
use mediaupdater.Check.Files.{check_all_files}
use mediaupdater.Manager
use mediaupdater.Download.{
  Downloads, Action, send, get, start_timer, emit, check_connection_settings,
}
use mediaupdater.Download.Ftp.{get_total_size}

module _ (Q : Qt) (st : Station) where
  -- The content manager's calls that touch the machine.
  unfoldable pub add_content : ContentType → Downloads Q → Downloads Q
  add_content type d =
      let (m, w) = Manager.add_network_content Q st type (d.manager, d.world) in
      record d { manager = m; world = w }

  unfoldable pub start : ℤ → Downloads Q → Downloads Q
  start login_id d =
      let d' = emit Q (send "{update_progress}" "") (check_connection_settings Q st d) in
      let d'' = add_content revision (record d' { manager = Manager.full_clear d'.manager }) in
      get_total_size Q login_id (record d'' { revision = true; content_files = [] })

  unfoldable pub start_content : ℤ → Downloads Q → Downloads Q
  start_content login_id d =
      let d' =
        add_content music (add_content advert (record d { manager = Manager.clear d.manager })) in
      get_total_size Q login_id
        (record d' { revision = false; content_files = []; current_numbers = 0 })

  unfoldable pub check_revision : String → Q.World → Bool
  check_revision box_id w =
      if leb_ℤ (rev_server Q st box_id w) (pos 0)
      then false
      else not (rev_local Q st box_id w == rev_server Q st box_id w)

  -- The revision is taken over if every file passed and the server has another one.
  unfoldable pub take_revision : Downloads Q → Option (Downloads Q)
  take_revision d =
      let box_id = d.login_info.box_id in
      let m = d.manager in
      elim (check_all_files Q st box_id (Manager.content_files m) (m.content_map, d.world)) [
        | none ↦ none
        | some ((contents, w), passed) ↦ some (record d {
          manager = record m { content_map = contents };
          world =
              if passed && check_revision box_id w
              then set_rev_local Q st (rev_server Q st box_id w) box_id w
              else w;
        })
      ]

  -- The end of the content phase, after the revision was looked at.
  unfoldable pub finish : Downloads Q → Downloads Q
  finish d =
      let d' = emit Q (send "{update_finished}" "Загрузка файлов завершена") d in
      let (m, w) = Manager.sync_content Q st (d'.manager, d'.world) in
      let d'' = emit Q start_timer (record d' { manager = m; world = w }) in
      emit Q (send "{revision}" (Q.number (rev_local Q st d.login_info.box_id w)))
        (emit Q (send "{update_success}" "Обновление файлов завершено") d'')

  unfoldable pub announce : ContentInfo → Downloads Q → Downloads Q
  announce info d =
      if d.revision
      then d
      else emit Q
          (send "{download_info}" (
            ("Files left: " <> Q.number (pos (length d.content_files)))
            <> (" Current file:" <> info.file_name)))
          d

  -- A file is taken from the list, and its download begins.
  unfoldable pub begin_download : ContentInfo → List ContentInfo → Downloads Q → Downloads Q
  unfolding announce
  begin_download info infos d = emit Q (get info.url) (record (announce info d) {
    content_files = infos;
    current = info;
    last_bytes = pos 0;
    download_timed_out = false;
    full_download_bytes = false;
    reply = true;
    download_timer = true;
  })

  unfoldable pub next_download_of : ℤ → List ContentInfo → Downloads Q → Option (Downloads Q)
  next_download_of login_id [] d =
      if d.revision
      then some (start_content login_id d)
      else elim (take_revision d) [ none ↦ none | some d' ↦ some (finish d') ]
  next_download_of login_id (info ∷ infos) d = some (begin_download info infos d)

  unfoldable pub next_download : ℤ → Downloads Q → Option (Downloads Q)
  unfolding next_download_of
  next_download login_id d = next_download_of login_id d.content_files d
