-- ===== src/Station/Identity.antt =====
-- managetools/stationmanager.cpp: `update`, which reads who and where the station is, and the setters
-- of its number and its credentials. `update` is that of Linux and macOS; the child Windows has the other.
pub mod Laws
pub mod Windows
use mediaupdater.Base.{
  ◌≡◌, String, ◌<>◌, Bool, true, false, not, ◌&&◌, Option, none, some, if◌then◌else◌,
}
use mediaupdater.Base.Int.{ℤ}
use mediaupdater.Base.Text.{is_empty}
use mediaupdater.Qt.{Qt, int_value, text_value}
use mediaupdater.Station.{Station, local_id}

-- The members of `StationManager` that are kept beside the stores.
pub record Identity : Type 0 where
  pub station : Station
  pub name_station : String
  pub last_error : String
  pub login : String
  pub password : String
  -- `mDebugLevel`, which the constructor leaves unset
  pub debug_level : ℤ
  -- `settingsMediabox` is not null
  pub is_open : Bool

abbrev pub damaged : String
damaged =
    "<b>LampStation</b> был удален или поврежден.<br>"
    <> "Для востановления необходимо переустановить <b>LampStation</b>.<br>"

abbrev pub not_installed : String
not_installed = "<b>LampStation</b> не установлен."

module _ (Q : Qt) (app_dir : String) where
  abbrev pub settings_file : String
  settings_file = app_dir <> "/.rumediasoft/lampplayer.conf"

  unfoldable pub mediabox_file : String → String
  mediabox_file path = Q.absolute_file_path path (app_dir <> "/.rumediasoft/mediabox.conf")

  unfoldable pub connection_file : String → String
  connection_file path =
      Q.absolute_file_path path
        (Q.absolute_file_path path (app_dir <> "/.rumediasoft/connection.ini"))

  -- The path of the station: that of the settings, or one below the program's, which is stored.
  unfoldable pub station_path : Q.World → String × Q.World
  station_path w =
      let path = text_value Q settings_file "Path" w in
      let own = app_dir <> "/.rumediasoft/" in
      if is_empty path
      then (own, Q.set_setting settings_file "Path" (Q.of_text (Q.absolute_path own)) w)
      else (path, w)

  -- `fromBase64` of a value of mediabox.conf
  unfoldable pub decoded : String → String → Q.World → String
  decoded file key w = Q.from_base64 (text_value Q file key w)

  -- The members that mediabox.conf gives. A missing media directory is stored, but not taken over.
  unfoldable pub read_mediabox : String → Identity → Q.World → Identity × Q.World
  unfolding decoded
  read_mediabox path s w =
      let st = s.station in
      let file = st.mediabox in
      let media = Q.setting file "mediastation/media" w in
      let w' : Q.World = elim media [
        | none ↦
            Q.set_setting file "mediastation/media" (Q.of_text (Q.absolute_file_path path "media"))
              w
        | some _ ↦ w
      ] in
      (
        record s {
          station = record st {
            station_id = int_value Q file "mediastation/mediabox_id" local_id w;
            path_to_media = elim media [ none ↦ "" | some v ↦ Q.to_text v ];
          };
          name_station = text_value Q file "mediastation/mediabox_name" w';
          login = decoded file "acid" w';
          password = decoded file "acidh" w';
        },
        w',
      )

  -- From the path of the station on.
  unfoldable pub open_mediabox : String → Identity → Q.World → Identity × Q.World × Bool
  unfolding read_mediabox mediabox_file connection_file
  open_mediabox path s w =
      let st = s.station in
      let opened = record s {
        station = record st {
          path_to_station = path;
          mediabox = mediabox_file path;
          connection = connection_file path;
        };
        is_open = true;
      } in
      let (taken, w') = read_mediabox path opened w in
      if not (Q.status_ok (mediabox_file path) w)
      then (record opened { last_error = damaged }, w, false)
      else if is_empty (Q.absolute_path path)
      then (record taken { last_error = damaged }, w', false)
      else (taken, w', true)

  unfoldable pub update : Identity → Q.World → Identity × Q.World × Bool
  unfolding station_path open_mediabox
  update s w =
      let st = s.station in
      let located = record s { station = record st { settings = settings_file } } in
      let (path, w') = station_path w in
      let read = open_mediabox path located w' in
      if Q.status_ok settings_file w
      then read
      else (record located { last_error = not_installed }, w, false)

  -- The constructor: a null `QSettings` has no name here, and a `QDir` of no path is that of `.`.
  unfoldable pub new_station_manager : ℤ → Q.World → Identity × Q.World × Bool
  unfolding update
  new_station_manager unset_level w =
      update
        (record {
          station = record {
            station_id = local_id;
            path_to_station = ".";
            path_to_media = ".";
            settings = "";
            mediabox = "";
            connection = "";
          };
          name_station = "NO SET";
          last_error = "Data not load";
          login = "";
          password = "";
          debug_level = unset_level;
          is_open = false;
        })
        w

module _ (Q : Qt) where
  unfoldable pub save_login : String → Identity → Q.World → Identity × Q.World
  save_login login s w =
      if s.is_open
      then (
        record s { login = login },
        Q.set_setting s.station.mediabox "acid" (Q.of_text (Q.to_base64 (Q.to_local login))) w,
      )
      else (s, w)

  -- The password is kept as its hash; an empty one is stored as it is.
  unfoldable pub save_password : String → Identity → Q.World → Identity × Q.World
  save_password password s w =
      let hash = Q.md5_hex password in
      if s.is_open
      then (
        record s { password = hash },
        Q.set_setting s.station.mediabox "acidh"
            (Q.of_text (if is_empty password then password else Q.to_base64 hash)) w,
      )
      else (s, w)

  unfoldable pub set_box_id : ℤ → Identity → Q.World → Identity × Q.World
  set_box_id id s w =
      let st = s.station in
      let s' = record s { station = record st { station_id = id } } in
      if Q.is_writable st.mediabox w
      then (s', Q.set_setting st.mediabox "mediastation/mediabox_id" (Q.of_int id) w)
      else (s', w)

  -- `machine_hash`, which the account's requests carry.
  unfoldable pub save_hash : String → Station → Q.World → Q.World
  save_hash hash st w = Q.set_setting st.settings "machine_hash" (Q.of_text hash) w

  unfoldable pub read_hash : Station → Q.World → String
  read_hash st w = text_value Q st.settings "machine_hash" w
