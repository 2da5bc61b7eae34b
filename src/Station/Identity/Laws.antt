-- ===== src/Station/Identity/Laws.antt =====
-- StationManager: what its number and its credentials are after they were set, and the first start.
use Prim.Native.String.{[], ◌∷◌}
use mediaupdater.Base.{
  ◌≡◌, refl, ap, ◌∙◌, not, String, true, false, none, if◌then◌else◌, if_true, if_false, ne_of_test,
  Bool-cases, inl, inr,
}
use mediaupdater.Base.Int.{ℤ}
use mediaupdater.Base.Text.{is_empty, split}
use mediaupdater.Qt.{Qt, IsLawful, text_value}
use mediaupdater.Qt.Settings.{
  int_value-set_setting, text_value-set_setting, text_value-set_setting_key,
}
use mediaupdater.Station.{get_box_id, get_login, get_password, local_id}
use mediaupdater.Station.Identity.{
  Identity, settings_file, update, station_path, open_mediabox, read_mediabox, mediabox_file,
  connection_file, save_login, save_password, set_box_id,
}

module _ (Q : Qt) where
  pub open_mediabox-open :
      (app_dir path : String) (s : Identity) (w : Q.World)
      → Q.status_ok (mediabox_file Q app_dir path) w ≡ true
      → is_empty (Q.absolute_path path) ≡ false
      → let (read, w') =
          read_mediabox Q app_dir path
            (record s {
              station = record s.station {
                path_to_station = path;
                mediabox = mediabox_file Q app_dir path;
                connection = connection_file Q app_dir path;
              };
              is_open = true;
            })
            w in
        open_mediabox Q app_dir path s w ≡ (read, w', true)
  unfolding open_mediabox
  open_mediabox-open app_dir path s w fine a =
      if_false (not (Q.status_ok (mediabox_file Q app_dir path) w)) _ _ (ap not fine)
      ∙ if_false (is_empty (Q.absolute_path path)) _ _ a

  -- An update that finds its files in order and the path in the settings.
  pub update-open :
      (app_dir : String) (s : Identity) (w : Q.World)
      → let path = text_value Q (settings_file Q app_dir) "Path" w in
        ((file : String) (v : Q.World) → Q.status_ok file v ≡ true)
        → is_empty path ≡ false
        → update Q app_dir s w
          ≡ open_mediabox Q app_dir path
              (record s { station = record s.station { settings = settings_file Q app_dir } })
              w
  unfolding update station_path
  update-open app_dir s w fine p =
      if_true (Q.status_ok (settings_file Q app_dir) w) _ _ (fine _ w)
      ∙ ap {A = String × Q.World}
          (λ at.
            open_mediabox Q app_dir at.0
              (record s { station = record s.station { settings = settings_file Q app_dir } }) at.1)
          (if_false (is_empty (text_value Q (settings_file Q app_dir) "Path" w)) _ _ p)

module _ (Q : Qt) (L : IsLawful Q) where
  -- The number is taken over at once; it is stored, and read back, where mediabox.conf can be written,
  -- and elsewhere the number is read that was stored before.
  get_box_id-set_box_id :
      (id : ℤ) (s : Identity) (w : Q.World)
      → let (s', w') = set_box_id Q id s w in
        (s'.station.station_id ≡ id)
        × (get_box_id Q s'.station w'
            ≡ (if Q.is_writable s.station.mediabox w then id else get_box_id Q s.station w))
  unfolding set_box_id get_box_id
  get_box_id-set_box_id id s w = elim (Bool-cases (Q.is_writable s.station.mediabox w)) [
    | inl h ↦ rw h (
      refl,
      int_value-set_setting Q L s.station.mediabox "mediastation/mediabox_id" local_id id w,
    )
    | inr h ↦ rw h (refl, refl)
  ]

  save_login-open :
      (login : String) (s : Identity) (w : Q.World)
      → s.is_open ≡ true
      → save_login Q login s w ≡ (
        record s { login = login },
        Q.set_setting s.station.mediabox "acid" (Q.of_text (Q.to_base64 (Q.to_local login))) w,
      )
  unfolding save_login
  save_login-open login s w o = if_true s.is_open _ (s, w) o

  save_password-open :
      (password : String) (s : Identity) (w : Q.World)
      → s.is_open ≡ true
      → let hash = Q.md5_hex password in
        save_password Q password s w ≡ (
          record s { password = hash },
          Q.set_setting s.station.mediabox "acidh"
              (Q.of_text (if is_empty password then password else Q.to_base64 hash))
              w,
        )
  unfolding save_password
  save_password-open password s w o = if_true s.is_open _ (s, w) o

  -- What is read where the password was stored.
  stored_password :
      (password : String)
      → Q.from_base64 (if is_empty password then password else Q.to_base64 (Q.md5_hex password))
        ≡ (if is_empty password then Q.from_base64 "" else Q.md5_hex password)
  stored_password [] = refl
  stored_password (c ∷ rest) = L.from_base64-to_base64 (Q.md5_hex (c ∷ rest))

  -- With a UTF-8 locale and an open mediabox.conf, the login that is read is the one that was saved;
  -- the password that is read is the hash of the one that was saved, or none if that was empty.
  pub saved_credentials :
      (login password : String) (s : Identity) (w : Q.World)
      → s.is_open ≡ true
      → Q.to_local login ≡ login
      → let (s', w') = save_login Q login s w in
        let (s'', w'') = save_password Q password s' w' in
        (get_login Q s''.station w'' ≡ login)
        × (get_password Q s''.station w''
            ≡ (if is_empty password then Q.from_base64 "" else Q.md5_hex password))
  unfolding get_login get_password split
  saved_credentials login password s w o u =
      rw
        (
          save_login-open login s w o,
          save_password-open password (record s { login = login })
              (Q.set_setting s.station.mediabox "acid" (Q.of_text (Q.to_base64 (Q.to_local login)))
                w)
              o,
        )
        (
          ap Q.from_base64 (
                text_value-set_setting_key Q L s.station.mediabox "acidh" _ s.station.mediabox
                  "acid" _ refl refl (ne_of_test "acidh" "acid" refl)
                ∙ text_value-set_setting Q L s.station.mediabox "acid" _ w)
              ∙ L.from_base64-to_base64 (Q.to_local login)
              ∙ u,
          ap Q.from_base64 (text_value-set_setting Q L s.station.mediabox "acidh" _ _)
              ∙ stored_password password,
        )

  update-path_to_media :
      (app_dir path : String) (s : Identity) (w : Q.World)
      → ((file : String) (v : Q.World) → Q.status_ok file v ≡ true)
      → text_value Q (settings_file Q app_dir) "Path" w ≡ path
      → is_empty path ≡ false
      → is_empty (Q.absolute_path path) ≡ false
      → (update Q app_dir s w).0.station.path_to_media
        ≡ text_value Q (mediabox_file Q app_dir path) "mediastation/media" w
  unfolding read_mediabox
  update-path_to_media app_dir path s w fine e p a =
      rw
        (
          update-open Q app_dir s w fine (ap is_empty e ∙ p),
          e,
          open_mediabox-open Q app_dir path
              (record s { station = record s.station { settings = settings_file Q app_dir } }) w
              (fine _ w) a,
        )
        refl

  -- Where the settings files are in order and hold the path of the station, and mediabox.conf names no
  -- media directory, an update stores one below the station and still takes none over; the next update
  -- takes the stored one.
  pub update_first_media :
      (app_dir : String) (s : Identity) (w : Q.World)
      → let path = text_value Q (settings_file Q app_dir) "Path" w in
        ((file : String) (v : Q.World) → Q.status_ok file v ≡ true)
        → is_empty path ≡ false
        → is_empty (Q.absolute_path path) ≡ false
        → Q.setting (mediabox_file Q app_dir path) "mediastation/media" w ≡ none
        → let (s', w', ok) = update Q app_dir s w in
          let (s'', w'', ok') = update Q app_dir s' w' in
          (s'.station.path_to_media ≡ "")
          × (s''.station.path_to_media ≡ Q.absolute_file_path path "media")
  unfolding read_mediabox split
  update_first_media app_dir s w fine p a none_yet =
      let path = text_value Q (settings_file Q app_dir) "Path" w in
      (
        update-path_to_media app_dir path s w fine refl p a ∙ rw (text_value, none_yet) refl,
        rw
            (
              update-open Q app_dir s w fine p,
              open_mediabox-open Q app_dir path
                  (record s { station = record s.station { settings = settings_file Q app_dir } }) w
                  (fine _ w) a,
              none_yet,
            )
            (update-path_to_media app_dir path _ _ fine
                (text_value-set_setting_key Q L _ "mediastation/media" _ _ "Path" w refl refl
                  (ne_of_test "mediastation/media" "Path" refl))
                p a
              ∙ text_value-set_setting Q L _ "mediastation/media" _ w),
      )
