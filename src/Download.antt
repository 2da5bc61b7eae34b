-- ===== src/Download.antt =====
-- updater/downloadmanager.h: the state of `DownloadManager`, its constructor, its actions on the
-- outside, and the settings of the connection. The two phases and the signal handlers are the
-- children. A handler returns `none` where the code would follow a null or dangling pointer.
-- The mutex and the log have no counterpart: one handler runs at a time.
pub mod Settings
pub mod Ftp
pub mod Phases
pub mod Transfer
pub mod Course
use mediaupdater.Base.{
  ℕ, String, Bool, true, false, Option, none, some, List, [], ◌∷◌, ◌++◌, if◌then◌else◌, ◌==◌,
}
use mediaupdater.Base.Int.{ℤ, pos, ltb_ℤ, int_eq}
use mediaupdater.Qt.{Qt}
use mediaupdater.LoginInfo.{LoginInfo}
use mediaupdater.Station.{
  Station, buffer_size, ftp_timeout, download_timeout, set_buffer_size, set_ftp_timeout,
  set_download_timeout,
}
use mediaupdater.Content.{ContentInfo, empty_info, Url}
use mediaupdater.Manager.{ContentManager, new_manager}
use mediaupdater.Manager

-- What the manager asks of QFtp, QNetworkAccessManager, QTimer::singleShot, the events' server and
-- its owner, in the order of the calls.
pub data Action : Type 0 where
  new_ftp : Action
  connect_to_host : String → ℤ → Action
  login : String → String → Action
  list : String → Action
  close : Action
  get : Url → Action
  abort : Action
  send : String → String → Action
  start_timer : Action
  post_next_download : Action

module _ (Q : Qt) where
  pub record Downloads : Type 0 where
    pub login_info : LoginInfo
    pub manager : ContentManager
    pub world : Q.World
    pub trace : List Action
    pub buffer : ℤ
    -- `mCurrentReply` is not null
    pub reply : Bool
    pub ftp_timer_wait : ℤ
    pub download_wait : ℤ
    pub ftp_timer : Bool
    pub download_timer : Bool
    pub total_bytes : ℤ
    pub last_bytes : ℤ
    pub current_bytes : ℤ
    pub content_files : List ContentInfo
    pub ftp_content_files : List ContentInfo
    pub current : ContentInfo
    pub revision : Bool
    pub login_command : ℤ
    pub download_timed_out : Bool
    pub ftp_timed_out : Bool
    pub full_download_bytes : Bool
    pub content_files_numbers : ℕ
    pub current_numbers : ℕ

  abbrev pub emit : Action → Downloads → Downloads
  emit a d = record d { trace = d.trace ++ (a ∷ []) }

  -- The members that the constructor leaves unset are arguments.
  unfoldable pub new_downloads : LoginInfo → ℤ → ℕ → Q.World → Downloads
  new_downloads login_info unset unset_number w = record {
    login_info = login_info;
    manager = new_manager login_info;
    world = w;
    trace = [];
    buffer = pos 0;
    reply = false;
    ftp_timer_wait = pos 25000;
    download_wait = pos 180000;
    ftp_timer = false;
    download_timer = false;
    total_bytes = pos 0;
    last_bytes = unset;
    current_bytes = unset;
    content_files = [];
    ftp_content_files = [];
    current = empty_info;
    revision = true;
    login_command = unset;
    download_timed_out = false;
    ftp_timed_out = false;
    full_download_bytes = false;
    content_files_numbers = unset_number;
    current_numbers = 0;
  }

  unfoldable pub set_login_info : LoginInfo → Downloads → Downloads
  set_login_info l d = record d { login_info = l; manager = Manager.set_login_info l d.manager }

  -- The buffer is not negative; a timeout of 0 is not set, and one below a second is a second.
  unfoldable pub checked_buffer : ℤ → ℤ
  checked_buffer bf = if ltb_ℤ bf (pos 0) then pos 0 else bf

  unfoldable pub checked_wait : ℤ → ℤ → ℤ
  checked_wait old t = if pos 0 == t then old else if ltb_ℤ t (pos 1000) then pos 1000 else t

  unfoldable pub check_connection_settings : Station → Downloads → Downloads
  unfolding checked_buffer checked_wait
  check_connection_settings st d =
      let bf = checked_buffer (buffer_size Q st d.world) in
      let ft = checked_wait d.ftp_timer_wait (ftp_timeout Q st d.world) in
      let dt = checked_wait d.download_wait (download_timeout Q st d.world) in
      record d {
        buffer = bf;
        ftp_timer_wait = ft;
        download_wait = dt;
        world =
            set_download_timeout Q st dt
              (set_ftp_timeout Q st ft (set_buffer_size Q st bf d.world));
      }
