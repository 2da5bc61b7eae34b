-- ===== src/Download/Ftp.antt =====
-- updater/downloadmanager.cpp: asking the FTP server for the sizes of the files.
pub mod Twice
pub mod Laws
use mediaupdater.Base.{
  ℕ, String, ◌<>◌, Bool, true, false, not, ◌&&◌, ◌||◌, Option, none, some, List, [], ◌∷◌, ◌++◌,
  if◌then◌else◌, ◌==◌,
}
use mediaupdater.Base.Int.{ℤ, pos, int_eq, ◌+ℤ◌}
use mediaupdater.Base.Lists.{length}
use mediaupdater.Base.Text.{is_empty}
use mediaupdater.Qt.{Qt}
use mediaupdater.LoginInfo.{LoginInfo}
use mediaupdater.Content.{ContentInfo}
use mediaupdater.Manager
use mediaupdater.Download.{
  Downloads, Action, new_ftp, connect_to_host, login, list, close, send, start_timer,
  post_next_download, emit,
}

pub data FtpError : Type 0 where
  no_error unknown_error other_error : FtpError

pub data FtpState : Type 0 where
  connected logged_in other_state : FtpState

-- What QFtp says when a command finished: its number, the error flag, `error()`, `errorString()`
-- and `state()`.
pub record Finished : Type 0 where
  pub id : ℤ
  pub failed : Bool
  pub error : FtpError
  pub error_string : String
  pub state : FtpState

-- `QUrlInfo`: `isValid() && isFile()`, and `size()`.
pub record UrlInfo : Type 0 where
  pub is_valid_file : Bool
  pub size : ℤ

abbrev pub is_harmless : FtpError → Bool
is_harmless other_error = false
is_harmless _ = true

abbrev pub is_logged_in : FtpState → Bool
is_logged_in logged_in = true
is_logged_in _ = false

module _ (Q : Qt) where
  -- `nextFtpFile` and `getFileSize`, which skips an entry that has no path.
  unfoldable pub next_of : List ContentInfo → Downloads Q → Downloads Q
  next_of [] d = emit Q post_next_download (
      emit Q close
        (record d { ftp_content_files = []; content_files_numbers = length d.content_files }))
  next_of (info ∷ infos) d =
      let d' = record d { current = info; ftp_content_files = infos } in
      let rest = next_of infos d' in
      if is_empty info.server_path
      then rest
      else emit Q (list info.server_path) (record d' { ftp_timed_out = false; ftp_timer = true })

  unfoldable pub next_ftp_file : Downloads Q → Downloads Q
  unfolding next_of
  next_ftp_file d = next_of d.ftp_content_files d

  -- A file of the server is counted and will be downloaded.
  unfoldable pub add_file : UrlInfo → Downloads Q → Downloads Q
  unfolding ◌+ℤ◌
  add_file info d =
      let current = record d.current { size = info.size } in
      record d {
        total_bytes = d.total_bytes +ℤ info.size;
        current = current;
        content_files = d.content_files ++ (current ∷ []);
        manager = Manager.append_size info.size d.manager;
      }

  unfoldable pub list_info : UrlInfo → Downloads Q → Downloads Q
  unfolding add_file
  list_info info d =
      let d' = record d { ftp_timer = false } in
      if d.ftp_timed_out
      then d'
      else next_ftp_file (if info.is_valid_file then add_file info d' else d')

  -- `login_id` is what QFtp numbers the login command.
  unfoldable pub connect_to_ftp : ℤ → Downloads Q → Downloads Q × Bool
  connect_to_ftp login_id d =
      let l = d.login_info in
      if is_empty l.host || is_empty l.login || is_empty l.password then (d, false) else (
        emit Q (login l.login l.password) (
            emit Q (connect_to_host l.host l.port)
              (record d { ftp_timed_out = false; ftp_timer = true; login_command = login_id })),
        true,
      )

  unfoldable pub get_total_size : ℤ → Downloads Q → Downloads Q
  unfolding connect_to_ftp
  get_total_size login_id d =
      let files = Manager.content_files d.manager in
      let d' = emit Q new_ftp (record d { ftp_content_files = files }) in
      let (d'', opened) = connect_to_ftp login_id (record d' {
        total_bytes = pos 0;
        last_bytes = pos 0;
        current_bytes = pos 0;
        manager = Manager.set_total_size (pos 0) d'.manager;
      }) in
      elim files [
        | [] ↦ emit Q post_next_download d'
        | _ ∷ _ ↦ if opened then d'' else emit Q start_timer d''
      ]

  unfoldable pub ftp_command_finished : Finished → Downloads Q → Downloads Q
  ftp_command_finished f d =
      let d' = record d { ftp_timer = false } in
      if d.ftp_timed_out
      then d
      else if f.failed
      then (if is_harmless f.error
          then next_ftp_file d'
          else emit Q start_timer (emit Q (send "{ftp_error}" f.error_string) d'))
      else if is_logged_in f.state && d.login_command == f.id
      then next_ftp_file d'
      else d

  unfoldable pub on_ftp_timeout : Downloads Q → Downloads Q
  on_ftp_timeout d = emit Q start_timer (
      emit Q close (
        emit Q (send "{ftp_timeout}" "FTP-сервер не отвечает")
          (record d { ftp_timed_out = true; ftp_timer = false })))
