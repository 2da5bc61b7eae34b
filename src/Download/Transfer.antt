-- ===== src/Download/Transfer.antt =====
-- updater/downloadmanager.cpp: the signals of the reply that carries the current file.
pub mod Laws
pub mod Progress
use mediaupdater.Base.{
  ℕ, suc, ◌+◌, ◌*◌, ◌/◌, String, ◌<>◌, Bool, true, false, not, ◌&&◌, ◌||◌, Option, none, some, List,
  [], ◌∷◌, ◌++◌, if◌then◌else◌, ◌==◌,
}
use mediaupdater.Base.Int.{ℤ, pos, negsuc, int_eq, leb_ℤ, ltb_ℤ, ◌+ℤ◌, ◌-ℤ◌, ltb}
use mediaupdater.Qt.{Qt}
use mediaupdater.Station.{Station}
use mediaupdater.Content.{ContentInfo, Content, dir_name_slash, destination_slash}
use mediaupdater.Check.{set_trust, set_rev, download_ok, download_fail, file_path}
use mediaupdater.Heap.{deref, put_back}
use mediaupdater.Download.{Downloads, Action, send, abort, post_next_download, emit}

module _ (Q : Qt) (st : Station) where
  -- `mCurrentContentFile.content()->destinationSlash()` with the path of the current file: the state
  -- with the slash added, the directory and the file.
  unfoldable pub current_path : Downloads Q → Option (Downloads Q × String × String)
  current_path d = elim (deref d.manager.content_map d.current) [
    | none ↦ none
    | some c ↦
        let (c', dest) = destination_slash c in
        let m = d.manager in
        some (
          record d { manager = record m { content_map = put_back c' m.content_map } },
          dest <> dir_name_slash d.current,
          file_path Q st d.login_info.box_id d.current dest,
        )
  ]

  -- `readyRead`: `bytes` is what `readAll()` gives. The timer is stopped, and started in the end.
  unfoldable pub save_downloaded_file : String → Downloads Q → Option (Downloads Q)
  unfolding current_path
  save_downloaded_file bytes d = elim (current_path d) [
    | none ↦ none
    | some (d', dir, path) ↦
        let w = Q.mkpath dir d.world in
        let started = record d' { download_timer = true } in
        elim (Q.append_file path bytes w) [
          | none ↦ some (record started { world = w })
          | some w' ↦ if d.reply then some (record started { world = w' }) else none
        ]
  ]

  -- The marks: of a content file if it came whole, of a revision file in either case.
  unfoldable pub set_marks : Bool → Bool → Downloads Q → Q.World → Q.World
  set_marks exists no_error d w =
      let box_id = d.login_info.box_id in
      let name = d.current.file_name in
      let good = exists && not d.download_timed_out && no_error in
      let w' =
        if good
        then (if d.revision
            then set_rev Q st box_id name download_ok w
            else set_trust Q st box_id d.current w)
        else (if d.revision then set_rev Q st box_id name download_fail w else w) in
      if exists && not d.revision && d.full_download_bytes
      then set_trust Q st box_id d.current w'
      else w'

  -- `{process_update}`, for the files of the content phase.
  unfoldable pub percent : ℕ → ℕ → ℕ
  percent done all = (done * 100) / all

  unfoldable pub report_progress : Downloads Q → Downloads Q
  unfolding percent
  report_progress d =
      if not d.revision && ltb 0 d.content_files_numbers
      then (let done = suc d.current_numbers in
          emit Q (send "{process_update}" (Q.number (pos (percent done d.content_files_numbers))))
            (record d { current_numbers = done }))
      else d

  -- `finished`: `no_error` says that the reply's error is `NoError`.
  unfoldable pub download_finished : Bool → Downloads Q → Option (Downloads Q)
  unfolding current_path set_marks report_progress
  download_finished no_error d = elim (current_path d) [
    | none ↦ none
    | some (d', dir, path) ↦
        let exists = Q.exists path d.world in
        let d'' = report_progress (record d' {
          download_timer = false;
          world = set_marks exists no_error d d.world;
          reply = false;
        }) in
        if exists && not d.download_timed_out && not d.reply
        then none
        else some (emit Q post_next_download d'')
  ]

  -- All bytes that the server announced are there.
  unfoldable pub is_complete : ℤ → ℤ → Bool
  is_complete cb tb = leb_ℤ tb cb && ltb_ℤ (pos 0) cb && not (tb == negsuc 0)

  -- The count of the received bytes, over all files and in this one.
  unfoldable pub count_bytes : ℤ → Downloads Q → Downloads Q
  unfolding ◌+ℤ◌ ◌-ℤ◌
  count_bytes cb d = record d {
    current_bytes = d.current_bytes +ℤ (cb -ℤ d.last_bytes);
    last_bytes = cb;
    download_timer = true;
  }

  unfoldable pub with_current_size : ℤ → Downloads Q → Downloads Q
  with_current_size cb d =
      let info = d.current in record d { current = record info { size_current = cb } }

  -- `downloadProgress`
  unfoldable pub download_progress : ℤ → ℤ → Downloads Q → Option (Downloads Q)
  unfolding current_path is_complete count_bytes with_current_size
  download_progress cb tb d =
      let counted = count_bytes cb d in
      let full : Option (Downloads Q) = elim (current_path counted) [
        | none ↦ none
        | some (d', dir, path) ↦ some (
            with_current_size cb (record d' {
              full_download_bytes = Q.size path d.world == cb || d.full_download_bytes;
            }))
      ] in
      if d.revision
      then some (record d { download_timer = true })
      else if is_complete cb tb
      then full
      else some (with_current_size cb counted)

  unfoldable pub reply_error : Downloads Q → Downloads Q
  reply_error d =
      emit Q (send "{download_error}" ("File:" <> d.current.file_name))
        (record d { download_timer = false })

  -- The timer ran out: `available` is what the reply still holds.
  unfoldable pub on_download_timeout : String → Bool → Downloads Q → Option (Downloads Q)
  unfolding save_downloaded_file
  on_download_timeout bytes available d =
      let idle = record d { download_timer = false } in
      let saved = save_downloaded_file bytes idle in
      if not d.reply
      then none
      else if available
      then saved
      else some (
          emit Q abort
            (record (emit Q (send "{download_timeout}" ("File:" <> d.current.file_name)) idle) {
              download_timed_out = true;
            }))
