-- ===== src/Station/Laws.antt =====
-- StationManager: what the setters leave for the getters.
use mediaupdater.Base.{
  ◌≡◌, refl, String, Bool, true, false, arith, if◌then◌else◌, string_eq, ne_of_test,
}
use mediaupdater.Base.Int.{ℤ, pos, ltb_ℤ, ◌≤ℤ◌}
use mediaupdater.Base.Text.{split}
use mediaupdater.Qt.{Qt, IsLawful}
use mediaupdater.Qt.Settings.{
  int_value-set_setting, bool_value-set_setting, bool_value-set_setting_key,
}
use mediaupdater.Station.{
  Station, set_log_delete_days, logger_delete_days, set_player_restart, player_restart_state,
  media_updater_restart_state, rev_local, set_rev_local, sync_file,
}

module _ (Q : Qt) (st : Station) where
  -- Logs are kept for at least one day, whatever mediabox.conf holds.
  pub logger_delete_days_pos : (w : Q.World) → pos 1 ≤ℤ logger_delete_days Q st w
  unfolding logger_delete_days
  logger_delete_days_pos w = ground arith

module _ (Q : Qt) (L : IsLawful Q) (st : Station) where
  -- The days that are read are those that were set, or ten where less than one was set.
  pub logger_delete_days-set_log_delete_days :
      (days : ℤ) (w : Q.World)
      → logger_delete_days Q st (set_log_delete_days Q st days w)
        ≡ (if ltb_ℤ days (pos 1) then pos 10 else days)
  unfolding logger_delete_days set_log_delete_days
  logger_delete_days-set_log_delete_days days w = ground (
    arith,
    int_value-set_setting Q L st.mediabox "loggerDeleteDays" (pos 10)
        (if ltb_ℤ days (pos 1) then pos 10 else days) w,
  )

  -- Asking the player to restart stores its flag as it is given, and leaves the flag of
  -- the updater alone.
  pub restart_flags :
      (state : Bool) (w : Q.World)
      → (player_restart_state Q st (set_player_restart Q st state w) ≡ state)
        × (media_updater_restart_state Q st (set_player_restart Q st state w)
            ≡ media_updater_restart_state Q st w)
  unfolding player_restart_state set_player_restart media_updater_restart_state string_eq split
  restart_flags state w = (
    bool_value-set_setting Q L st.mediabox "playerRestart" false state w,
    bool_value-set_setting_key Q L st.mediabox "playerRestart" (Q.of_bool state) st.mediabox
        "mediaupdaterRestart" false w refl refl
        (ne_of_test "playerRestart" "mediaupdaterRestart" refl),
  )

  -- The local revision that is read is the one that was stored, if the store reports no error.
  pub rev_local-set_rev_local :
      (rev : ℤ) (box_id : String) (w : Q.World)
      → Q.status_ok (sync_file Q st box_id "local") (set_rev_local Q st rev box_id w) ≡ true
      → rev_local Q st box_id (set_rev_local Q st rev box_id w) ≡ rev
  unfolding rev_local set_rev_local
  rev_local-set_rev_local rev box_id w h =
      ground
        (arith, int_value-set_setting Q L (sync_file Q st box_id "local") "/revision" (pos 0) rev w)
