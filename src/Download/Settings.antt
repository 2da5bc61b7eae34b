-- ===== src/Download/Settings.antt =====
-- DownloadManager::checkConnectionSettings: the limits it keeps.
use mediaupdater.Base.{◌≡◌, refl, arith, ◌∙◌, ne_of_test}
use mediaupdater.Base.Int.{ℤ, pos, ◌≤ℤ◌, int_eq}
use mediaupdater.Base.Text.{split}
use mediaupdater.Qt.{Qt, IsLawful}
use mediaupdater.Qt.Settings.{int_value-set_setting, int_value-set_setting_key}
use mediaupdater.Station.{
  Station, buffer_size, ftp_timeout, download_timeout, set_buffer_size, set_ftp_timeout,
  set_download_timeout,
}
use mediaupdater.Download.{Downloads, checked_buffer, checked_wait, check_connection_settings}

module _ (Q : Qt) (st : Station) where
  checked_wait_bound : (old t : ℤ) → pos 1000 ≤ℤ old → pos 1000 ≤ℤ checked_wait Q old t
  unfolding checked_wait
  checked_wait_bound old t h = ground arith

  checked_buffer_bound : (bf : ℤ) → pos 0 ≤ℤ checked_buffer Q bf
  unfolding checked_buffer
  checked_buffer_bound bf = ground arith

  -- Timeouts of at least a second stay so, and the buffer is not negative, whatever
  -- connection.ini says.
  pub check_connection_settings_bounds :
      (d : Downloads Q)
      → pos 1000 ≤ℤ d.ftp_timer_wait
      → pos 1000 ≤ℤ d.download_wait
      → let d' = check_connection_settings Q st d in
        (pos 0 ≤ℤ d'.buffer) × (pos 1000 ≤ℤ d'.ftp_timer_wait) × (pos 1000 ≤ℤ d'.download_wait)
  unfolding check_connection_settings
  check_connection_settings_bounds d f w = (
    checked_buffer_bound (buffer_size Q st d.world),
    checked_wait_bound d.ftp_timer_wait (ftp_timeout Q st d.world) f,
    checked_wait_bound d.download_wait (download_timeout Q st d.world) w,
  )

module _ (Q : Qt) (L : IsLawful Q) (st : Station) where
  -- The buffer and the timeouts in use are those that connection.ini holds afterwards.
  check_connection_settings_stored :
      (d : Downloads Q)
      → let d' = check_connection_settings Q st d in
        (buffer_size Q st d'.world ≡ d'.buffer)
        × (ftp_timeout Q st d'.world ≡ d'.ftp_timer_wait)
        × (download_timeout Q st d'.world ≡ d'.download_wait)
  unfolding check_connection_settings buffer_size ftp_timeout download_timeout set_buffer_size
      set_ftp_timeout set_download_timeout split
  check_connection_settings_stored d =
      let d' = check_connection_settings Q st d in
      let w = Q.set_setting st.connection "buffer_size" (Q.of_int d'.buffer) d.world in
      let w' = Q.set_setting st.connection "ftp_timeout" (Q.of_int d'.ftp_timer_wait) w in
      let w'' = Q.set_setting st.connection "download_timeout" (Q.of_int d'.download_wait) w' in
      (
        int_value-set_setting_key Q L st.connection "download_timeout" (Q.of_int d'.download_wait)
              st.connection "buffer_size" (pos 0) w' refl refl
              (ne_of_test "download_timeout" "buffer_size" refl)
            ∙ int_value-set_setting_key Q L st.connection "ftp_timeout" (Q.of_int d'.ftp_timer_wait)
                st.connection "buffer_size" (pos 0) w refl refl
                (ne_of_test "ftp_timeout" "buffer_size" refl)
            ∙ int_value-set_setting Q L st.connection "buffer_size" (pos 0) d'.buffer d.world,
        int_value-set_setting_key Q L st.connection "download_timeout" (Q.of_int d'.download_wait)
              st.connection "ftp_timeout" (pos 0) w' refl refl
              (ne_of_test "download_timeout" "ftp_timeout" refl)
            ∙ int_value-set_setting Q L st.connection "ftp_timeout" (pos 0) d'.ftp_timer_wait w,
        int_value-set_setting Q L st.connection "download_timeout" (pos 0) d'.download_wait w',
      )
