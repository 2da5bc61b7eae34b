-- ===== src/Download/Course/Watch.antt =====
-- The timer that runs while the FTP server is asked.
pub mod Signals
use mediaupdater.Base.{
  ◌≡◌, refl, ap, sym, subst, ◌∙◌, inl, inr, String, ◌<>◌, Bool, true, false, ◌&&◌, ◌||◌, ◌==◌, some,
  List, [], ◌∷◌, arith, if_both, if_true, if_false, if_true, Bool-cases, if◌then◌else◌, Bool-cases,
  Option-cases,
}
use mediaupdater.Base.Int.{ℤ, pos, int_eq}
use mediaupdater.Base.Lists.{List-cases}
use mediaupdater.Base.Text.{is_empty}
use mediaupdater.LoginInfo.{LoginInfo}
use mediaupdater.Qt.{Qt}
use mediaupdater.Station.{Station, rev_local}
use mediaupdater.Content.{ContentInfo}
use mediaupdater.Manager
use mediaupdater.Download.{
  Downloads, Action, emit, list, login, close, send, start_timer, new_ftp, connect_to_host,
  post_next_download, set_login_info, check_connection_settings, abort, get,
}
use mediaupdater.Download.Ftp.{
  is_harmless, is_logged_in, Finished, UrlInfo, next_of, next_ftp_file, add_file, list_info,
  ftp_command_finished, on_ftp_timeout, connect_to_ftp, get_total_size,
}
use mediaupdater.Download.Phases.{
  add_content, start, start_content, take_revision, announce, begin_download, next_download,
  next_download_of, finish,
}
use mediaupdater.Download.Transfer.{
  current_path, set_marks, save_downloaded_file, report_progress, download_finished, reply_error,
  on_download_timeout,
}
use mediaupdater.Download.Course.{
  Event, started, listed, command_finished, ftp_timed_out, next, ready_read, progressed, failed,
  finished, timed_out, can_come, handle, is_list, is_login, last_action, walks,
}
use mediaupdater.Download.Course.Reply.{finished_at, with_reply}
use mediaupdater.Download.Course.Safety.{some_inj}
use mediaupdater.Download.Course.Await.{awaits, waits_of, opened_or_waits}
use mediaupdater.Download.Course.Turn.Signals.{saved_keeps, progressed_keeps}
use mediaupdater.Download.Course.Turn.{is_started, none_differs, finished_of}
use mediaupdater.Download.Course.Walk.{last_action-append}

module _ (Q : Qt) where
  abbrev pub Watched : Downloads Q → Type 0
  Watched d = walks Q d ≡ true → (d.ftp_timer ≡ true) × (d.ftp_timed_out ≡ false)

  -- The last action asks the server for nothing.
  pub quiet-Watched :
      (a : Action) (d : Downloads Q)
      → is_login (some a) || is_list (some a) ≡ false
      → Watched (emit Q a d)
  quiet-Watched a d q h = absurd (ground (arith, last_action-append d.trace a))

  next_of-Watched : (files : List ContentInfo) (d : Downloads Q) → Watched (next_of Q files d)
  unfolding next_of
  next_of-Watched [] d =
      quiet-Watched post_next_download (emit Q close (record d { ftp_content_files = [] })) refl
  next_of-Watched (info ∷ infos) d =
      let d' = record d { current = info; ftp_content_files = infos } in
      if_both Watched (is_empty info.server_path) (next_of Q infos d')
        (emit Q (list info.server_path) (record d' { ftp_timed_out = false; ftp_timer = true }))
        (next_of-Watched infos d') (λ _. (refl, refl))

  pub list_info-Watched :
      (info : UrlInfo) (d : Downloads Q) → Watched d → Watched (list_info Q info d)
  unfolding list_info next_ftp_file
  list_info-Watched info d v =
      let d' = record d { ftp_timer = false } in
      let e = if info.is_valid_file then add_file Q info d' else d' in
      elim (Bool-cases d.ftp_timed_out) [
        | inl y ↦
            subst Watched (sym (if_true d.ftp_timed_out d' (next_ftp_file Q e) y))
              (λ h. absurd (ground (arith, (v h).1, y)))
        | inr n ↦
            subst Watched (sym (if_false d.ftp_timed_out d' (next_ftp_file Q e) n))
              (next_of-Watched e.ftp_content_files e)
      ]

  pub ftp_command_finished-Watched :
      (f : Finished) (d : Downloads Q) → Watched d → Watched (ftp_command_finished Q f d)
  unfolding ftp_command_finished next_ftp_file
  ftp_command_finished-Watched f d v =
      let d' = record d { ftp_timer = false } in
      let on = next_of-Watched d.ftp_content_files d' in
      let told = emit Q (send "{ftp_error}" f.error_string) d' in
      if_both Watched d.ftp_timed_out d _ v (
        if_both Watched f.failed _ _
          (if_both Watched (is_harmless f.error) (next_ftp_file Q d') (emit Q start_timer told) on
            (quiet-Watched start_timer told refl))
          (if_both Watched (is_logged_in f.state && d.login_command == f.id) (next_ftp_file Q d') d
            on v))

  connect_to_ftp-Watched :
      (id : ℤ) (d : Downloads Q) → Watched (opened_or_waits Q (connect_to_ftp Q id d))
  unfolding connect_to_ftp
  connect_to_ftp-Watched id d =
      let l = d.login_info in
      let knocked = record d { ftp_timed_out = false; ftp_timer = true; login_command = id } in
      if_both (λ r. Watched (opened_or_waits Q r))
        (is_empty l.host || is_empty l.login || is_empty l.password) (d, false)
        (emit Q (login l.login l.password) (emit Q (connect_to_host l.host l.port) knocked), true)
        (quiet-Watched start_timer d refl) (λ _. (refl, refl))

  pub get_total_size-Watched : (id : ℤ) (d : Downloads Q) → Watched (get_total_size Q id d)
  unfolding get_total_size
  get_total_size-Watched id d =
      let files = Manager.content_files d.manager in
      let d' = emit Q new_ftp (record d { ftp_content_files = files }) in
      let zeroed = record d' {
        total_bytes = pos 0;
        last_bytes = pos 0;
        current_bytes = pos 0;
        manager = Manager.set_total_size (pos 0) d'.manager;
      } in
      elim (List-cases files) [
        | inl n ↦ rw (get_total_size, n) (quiet-Watched post_next_download d' refl)
        | inr (info, infos, n) ↦ rw (get_total_size, n) (connect_to_ftp-Watched id zeroed)
      ]

  pub on_ftp_timeout-Watched : (d : Downloads Q) → Watched (on_ftp_timeout Q d)
  unfolding on_ftp_timeout
  on_ftp_timeout-Watched d =
      let late = record d { ftp_timed_out = true; ftp_timer = false } in
      let told = emit Q (send "{ftp_timeout}" "FTP-сервер не отвечает") late in
      quiet-Watched start_timer (emit Q close told) refl

  -- What leaves the actions and the timer as they were.
  pub kept-Watched :
      (d d' : Downloads Q)
      → Watched d
      → d'.trace ≡ d.trace
      → d'.ftp_timer ≡ d.ftp_timer
      → d'.ftp_timed_out ≡ d.ftp_timed_out
      → Watched d'
  kept-Watched d d' v t runs in_time h =
      let asked = λ (l : List Action). is_login (last_action l) || is_list (last_action l) in
      let (a, b) = v (sym (ap asked t) ∙ h) in (runs ∙ a, in_time ∙ b)
