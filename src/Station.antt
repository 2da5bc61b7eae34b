-- ===== src/Station.antt =====
-- managetools/stationmanager.h and stationmanager.cpp: directories, revisions, and the settings
-- kept in mediabox.conf, connection.ini and the ini files of one box. `sync()` has no counterpart,
-- since a store is read and written at once here.
pub mod Laws
pub mod Identity
use mediaupdater.Base.{String, ◌<>◌, Bool, true, false, if◌then◌else◌, ◌==◌, string_eq}
use mediaupdater.Base.Int.{ℤ, pos, negsuc, ltb_ℤ, int_eq}
use mediaupdater.Qt.{Qt, bool_value, int_value, text_value}

pub record Station : Type 0 where
  pub station_id : ℤ
  pub path_to_station : String
  pub path_to_media : String
  -- the files behind `settings`, `settingsMediabox` and `settingsConnection`
  pub settings : String
  pub mediabox : String
  pub connection : String

abbrev pub local_id : ℤ
local_id = negsuc 0

abbrev pub default_logger_days : ℤ
default_logger_days = pos 10

abbrev pub minimum_logger_days : ℤ
minimum_logger_days = pos 1

unfoldable pub advert_dir : String
advert_dir = "ads"

unfoldable pub music_dir : String
music_dir = "music"

module _ (Q : Qt) (st : Station) where
  unfoldable pub media : String → String
  media subdir = Q.absolute_file_path st.path_to_media subdir

  unfoldable pub media_sync : String
  media_sync = Q.absolute_file_path st.path_to_media ".sync"

  unfoldable pub reports_dir : String
  reports_dir = Q.absolute_file_path st.path_to_media "reports"

  unfoldable pub get_path_to_station : String
  get_path_to_station = Q.absolute_path st.path_to_station

  unfoldable pub player_path : String → String
  player_path subdir = Q.absolute_file_path st.path_to_station subdir

  unfoldable pub timetable_path : String
  timetable_path = player_path "timetable"

  unfoldable pub get_box_id : Q.World → ℤ
  get_box_id w = int_value Q st.mediabox "mediastation/mediabox_id" local_id w

  unfoldable pub get_refresh_login : Q.World → String
  get_refresh_login w = text_value Q st.mediabox "acid" w

  unfoldable pub get_refresh_password : Q.World → String
  get_refresh_password w = text_value Q st.mediabox "acidh" w

  unfoldable pub get_login : Q.World → String
  get_login w = Q.from_base64 (text_value Q st.mediabox "acid" w)

  unfoldable pub get_password : Q.World → String
  get_password w = Q.from_base64 (text_value Q st.mediabox "acidh" w)

  unfoldable pub set_download_timeout : ℤ → Q.World → Q.World
  set_download_timeout timeout w =
      Q.set_setting st.connection "download_timeout" (Q.of_int timeout) w

  unfoldable pub set_ftp_timeout : ℤ → Q.World → Q.World
  set_ftp_timeout timeout w = Q.set_setting st.connection "ftp_timeout" (Q.of_int timeout) w

  unfoldable pub set_buffer_size : ℤ → Q.World → Q.World
  set_buffer_size size w = Q.set_setting st.connection "buffer_size" (Q.of_int size) w

  -- A missing value is an invalid QVariant, and `toInt()` of it is 0.
  unfoldable pub download_timeout : Q.World → ℤ
  download_timeout w = int_value Q st.connection "download_timeout" (pos 0) w

  unfoldable pub ftp_timeout : Q.World → ℤ
  ftp_timeout w = int_value Q st.connection "ftp_timeout" (pos 0) w

  unfoldable pub buffer_size : Q.World → ℤ
  buffer_size w = int_value Q st.connection "buffer_size" (pos 0) w

  unfoldable pub set_log_delete_days : ℤ → Q.World → Q.World
  set_log_delete_days days w =
      Q.set_setting st.mediabox "loggerDeleteDays"
        (Q.of_int (if ltb_ℤ days minimum_logger_days then default_logger_days else days)) w

  unfoldable pub logger_delete_days : Q.World → ℤ
  logger_delete_days w =
      let days = int_value Q st.mediabox "loggerDeleteDays" default_logger_days w in
      if ltb_ℤ days minimum_logger_days then default_logger_days else days

  unfoldable pub set_restart : String → Bool → Q.World → Q.World
  set_restart key state w =
      if key == "player"
      then Q.set_setting st.mediabox "playerRestart" (Q.of_bool state) w
      else if key == "mediaupdater"
      then Q.set_setting st.mediabox "mediaupdaterRestart" (Q.of_bool state) w
      else w

  unfoldable pub set_player_restart : Bool → Q.World → Q.World
  unfolding set_restart
  set_player_restart state w = set_restart "player" state w

  unfoldable pub set_media_updater_restart : Bool → Q.World → Q.World
  unfolding set_restart
  set_media_updater_restart state w = set_restart "mediaupdater" state w

  unfoldable pub player_restart_state : Q.World → Bool
  player_restart_state w = bool_value Q st.mediabox "playerRestart" false w

  unfoldable pub media_updater_restart_state : Q.World → Bool
  media_updater_restart_state w = bool_value Q st.mediabox "mediaupdaterRestart" false w

  -- `QDir syncPath(media(".sync/" + boxId))` with `absoluteFilePath(file)`
  unfoldable pub sync_file : String → String → String
  unfolding media
  sync_file box_id file = Q.absolute_file_path (media (".sync/" <> box_id)) file

  unfoldable pub revision_in : String → Q.World → ℤ
  revision_in file w = if Q.status_ok file w then int_value Q file "/revision" (pos 0) w else pos 0

  unfoldable pub rev_local : String → Q.World → ℤ
  unfolding sync_file revision_in
  rev_local box_id w = revision_in (sync_file box_id "local") w

  unfoldable pub set_rev_local : ℤ → String → Q.World → Q.World
  unfolding sync_file
  set_rev_local rev box_id w = Q.set_setting (sync_file box_id "local") "/revision" (Q.of_int rev) w

  unfoldable pub rev_server : String → Q.World → ℤ
  unfolding sync_file revision_in
  rev_server box_id w = revision_in (sync_file box_id "command/command") w

  unfoldable pub revision_server : Q.World → ℤ
  unfolding revision_in media
  revision_server w = revision_in (Q.absolute_file_path (media ".sync") "command") w

  unfoldable pub revision_local : Q.World → ℤ
  unfolding media
  revision_local w =
      let file = Q.absolute_file_path (media ".sync") "local" in
      if Q.status_ok file w
      then if int_value Q file "lp/id" (pos 0) w == st.station_id
        then int_value Q file "lp/revision" (pos 0) w
        else pos 0
      else pos 0
