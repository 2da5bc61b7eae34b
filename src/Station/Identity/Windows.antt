-- ===== src/Station/Identity/Windows.antt =====
-- managetools/stationmanager.cpp: `update` on Windows, where the path of the station is in the registry.
use mediaupdater.Base.{
  ◌≡◌, refl, ap, ◌∙◌, String, ◌<>◌, Bool, true, false, not, some, if◌then◌else◌,
}
use mediaupdater.Base.Int.{ℤ, pos}
use mediaupdater.Base.Text.{is_empty}
use mediaupdater.Qt.{Qt, int_value, text_value}
use mediaupdater.Station.{local_id}
use mediaupdater.Station.Identity.{
  Identity, damaged, not_installed, decoded, settings_file, mediabox_file, read_mediabox, update,
}
use mediaupdater.Station.Identity.Laws.{update-open, open_mediabox-open}

abbrev pub registry : String
registry = "HKEY_LOCAL_MACHINE\\SOFTWARE\\Rumediasoft\\Station"

abbrev pub damaged_player : String
damaged_player =
    "<b>mediabox.conf</b> был удален или поврежден.<br>"
    <> "Для востановления необходимо переустановить <b>lampplayer</b>.<br>"

module _ (Q : Qt) (app_dir : String) where
  -- The members that mediabox.conf gives: nothing is stored.
  unfoldable pub read_mediabox_windows : Identity → Q.World → Identity
  unfolding decoded
  read_mediabox_windows s w =
      let st = s.station in
      let file = st.mediabox in
      record s {
        station = record st {
          station_id = int_value Q file "mediastation/mediabox_id" local_id w;
          path_to_media = text_value Q file "mediastation/media" w;
        };
        name_station = text_value Q file "mediastation/mediabox_name" w;
        debug_level = int_value Q file "mediastation/debuglevel" (pos 0) w;
        login = decoded Q app_dir file "acid" w;
        password = decoded Q app_dir file "acidh" w;
      }

  unfoldable pub update_windows : Identity → Q.World → Identity × Bool
  unfolding read_mediabox_windows
  update_windows s w =
      let quiet = record s {
        station = record s.station { settings = registry };
        debug_level = pos 0;
      } in
      let path = text_value Q registry "Path" w in
      let file = Q.absolute_file_path path "mediabox.conf" in
      let opened = record quiet {
        station = record quiet.station {
          path_to_station = path;
          mediabox = file;
          connection = app_dir <> "\\connection.ini";
        };
        is_open = true;
      } in
      let taken = read_mediabox_windows opened w in
      if not (Q.status_ok registry w)
      then (record quiet { last_error = not_installed }, false)
      else if not (Q.status_ok file w)
      then (record opened { last_error = damaged_player }, false)
      else if is_empty (Q.absolute_path path)
      then (record taken { last_error = damaged }, false)
      else (taken, true)

-- Who and where the station is: its number, its directories, its name and its credentials.
abbrev pub known : Identity → ℤ × String × String × String × String × String
known s = (
  s.station.station_id, s.station.path_to_station, s.station.path_to_media, s.name_station, s.login,
  s.password,
)

module _ (Q : Qt) (app_dir : String) (s : Identity) (w : Q.World) where
  -- `update` where all is in order.
  update_windows-open :
      (path : String)
      → text_value Q registry "Path" w ≡ path
      → ((file : String) (v : Q.World) → Q.status_ok file v ≡ true)
      → is_empty (Q.absolute_path path) ≡ false
      → update_windows Q app_dir s w ≡ (
        read_mediabox_windows Q app_dir
            (record s {
              station = record s.station {
                settings = registry;
                path_to_station = path;
                mediabox = Q.absolute_file_path path "mediabox.conf";
                connection = app_dir <> "\\connection.ini";
              };
              debug_level = pos 0;
              is_open = true;
            })
            w,
        true,
      )
  unfolding update_windows
  update_windows-open path e fine a =
      rw (e, fine registry w, fine (Q.absolute_file_path path "mediabox.conf") w, a) refl

  -- Where all settings are in order, the registry and the settings of Linux hold the same path, the two
  -- files mediabox.conf the same values, and a media directory among them, then `update` of Windows
  -- and that of Linux both succeed and take over the same number, directories, name and credentials,
  -- and that of Linux stores nothing.
  pub update_windows-update :
      (media : Q.Variant)
      → let path = text_value Q registry "Path" w in
        let file = mediabox_file Q app_dir path in
        ((file : String) (v : Q.World) → Q.status_ok file v ≡ true)
        → text_value Q (settings_file Q app_dir) "Path" w ≡ path
        → is_empty path ≡ false
        → is_empty (Q.absolute_path path) ≡ false
        → ((key : String)
            → Q.setting (Q.absolute_file_path path "mediabox.conf") key w ≡ Q.setting file key w)
        → Q.setting file "mediastation/media" w ≡ some media
        → let (a, ok) = update_windows Q app_dir s w in
          let (b, w', ok') = update Q app_dir s w in
          (known a ≡ known b) × (ok ≡ true) × (ok' ≡ true) × (w' ≡ w)
  unfolding read_mediabox read_mediabox_windows decoded
  update_windows-update media fine e p a same there =
      let path = text_value Q registry "Path" w in
      let located = record s {
        station = record s.station { settings = settings_file Q app_dir };
      } in
      rw
        (
          update_windows-open path refl fine a,
          update-open Q app_dir s w fine (ap is_empty e ∙ p),
          e,
          open_mediabox-open Q app_dir path located w (fine _ w) a,
          int_value,
          text_value,
          decoded,
          same "mediastation/mediabox_id",
          same "mediastation/media",
          same "mediastation/mediabox_name",
          same "acid",
          same "acidh",
          there,
        )
        (refl, refl, refl, refl)
