-- ===== src/Download/Course/Tally.antt =====
-- The count of the files of a content phase: what the report of its progress divides by.
pub mod Signals
use mediaupdater.Base.{
  ℕ, suc, ◌+◌, ◌≤◌, ◌≡◌, refl, ap, sym, subst, ◌∙◌, inl, inr, String, ◌<>◌, Bool, true, false, not,
  ◌&&◌, ◌||◌, ◌==◌, Option, none, some, List, [], ◌∷◌, arith, if_both, if_true, if_false,
  if◌then◌else◌, Bool-cases, Option-cases,
}
use mediaupdater.Base.Text.{is_empty}
use mediaupdater.Base.Int.{ℤ, pos, int_eq}
use mediaupdater.Base.Lists.{length, List-cases}
use mediaupdater.LoginInfo.{LoginInfo}
use mediaupdater.Qt.{Qt}
use mediaupdater.Station.{Station}
use mediaupdater.Manager
use mediaupdater.Content.{ContentInfo}
use mediaupdater.Download.{
  Downloads, Action, emit, list, login, close, send, start_timer, new_ftp, connect_to_host,
  post_next_download, abort, set_login_info, check_connection_settings, get,
}
use mediaupdater.Download.Ftp.{
  is_harmless, is_logged_in, Finished, UrlInfo, next_of, next_ftp_file, add_file, list_info,
  ftp_command_finished, on_ftp_timeout, connect_to_ftp, get_total_size,
}
use mediaupdater.Download.Phases.{
  add_content, start, start_content, announce, begin_download, next_download, next_download_of,
  finish, take_revision,
}
use mediaupdater.Download.Transfer.{
  save_downloaded_file, download_finished, download_progress, reply_error, on_download_timeout,
  current_path, report_progress, set_marks,
}
use mediaupdater.Download.Transfer.Progress.{Counted}
use mediaupdater.Download.Course.{last_action, is_list, is_login, is_post, walks, posted}
use mediaupdater.Download.Course.Walk.{last_action-append}
use mediaupdater.Download.Course.Round.{get_total_size-revision}
use mediaupdater.Download.Course.Await.{opened_or_waits}

module _ (Q : Qt) (st : Station) where
  -- In a content phase: no file is done while the server is asked, and from then on the files done,
  -- waiting and in flight are no more than those of the phase.
  abbrev pub Fair : Downloads Q → Type 0
  Fair d =
      d.revision ≡ false
      → (walks Q d ≡ true → d.current_numbers ≡ 0) × (posted Q d || d.reply ≡ true → Counted Q st d)

  -- The last action asks for nothing and posts nothing, and there is no reply.
  pub idle-Fair :
      (a : Action) (d : Downloads Q)
      → is_login (some a) || is_list (some a) ≡ false
      → is_post (some a) ≡ false
      → d.reply ≡ false
      → Fair (emit Q a d)
  idle-Fair a d w p r h = (
    λ x. absurd (ground (arith, last_action-append d.trace a)),
    λ x. absurd (ground (arith, last_action-append d.trace a)),
  )

  -- The last action asks the server.
  asked-Fair :
      (a : Action) (d : Downloads Q)
      → is_post (some a) ≡ false
      → d.reply ≡ false
      → (d.revision ≡ false → d.current_numbers ≡ 0)
      → Fair (emit Q a d)
  asked-Fair a d p r z h = (λ _. z h, λ x. absurd (ground (arith, last_action-append d.trace a)))

  next_of-Fair :
      (files : List ContentInfo) (d : Downloads Q)
      → d.reply ≡ false
      → (d.revision ≡ false → d.current_numbers ≡ 0)
      → Fair (next_of Q files d)
  unfolding next_of
  next_of-Fair [] d r z = λ h. (λ _. z h, λ _. ground (arith, z h, r))
  next_of-Fair (info ∷ infos) d r z =
      let d' = record d { current = info; ftp_content_files = infos } in
      if_both Fair (is_empty info.server_path) (next_of Q infos d')
        (emit Q (list info.server_path) (record d' { ftp_timed_out = false; ftp_timer = true }))
        (next_of-Fair infos d' r z)
        (asked-Fair (list info.server_path) (record d' { ftp_timed_out = false; ftp_timer = true })
          refl r z)

  pub list_info-Fair :
      (info : UrlInfo) (d : Downloads Q)
      → walks Q d ≡ true
      → d.reply ≡ false
      → Fair d
      → Fair (list_info Q info d)
  unfolding list_info next_ftp_file add_file
  list_info-Fair info d w r f =
      let d' = record d { ftp_timer = false } in
      let zero = λ (h : d.revision ≡ false). (f h).0 w in
      if_both Fair d.ftp_timed_out d'
        (next_ftp_file Q (if info.is_valid_file then add_file Q info d' else d')) f
        (if_both (λ (e : Downloads Q). Fair (next_ftp_file Q e)) info.is_valid_file
          (add_file Q info d') d' (next_of-Fair d.ftp_content_files (add_file Q info d') r zero)
          (next_of-Fair d.ftp_content_files d' r zero))

  pub ftp_command_finished-Fair :
      (c : Finished) (d : Downloads Q)
      → walks Q d ≡ true
      → d.reply ≡ false
      → Fair d
      → Fair (ftp_command_finished Q c d)
  unfolding ftp_command_finished next_ftp_file
  ftp_command_finished-Fair c d w r f =
      let d' = record d { ftp_timer = false } in
      let on = next_of-Fair d.ftp_content_files d' r (λ h. (f h).0 w) in
      let told = emit Q (send "{ftp_error}" c.error_string) d' in
      if_both Fair d.ftp_timed_out d _ f (
        if_both Fair c.failed _ _
          (if_both Fair (is_harmless c.error) (next_ftp_file Q d') (emit Q start_timer told) on
            (idle-Fair start_timer told refl refl r))
          (if_both Fair (is_logged_in c.state && d.login_command == c.id) (next_ftp_file Q d') d on
            f))

  pub on_ftp_timeout-Fair : (d : Downloads Q) → d.reply ≡ false → Fair (on_ftp_timeout Q d)
  unfolding on_ftp_timeout
  on_ftp_timeout-Fair d r =
      let late = record d { ftp_timed_out = true; ftp_timer = false } in
      let told = emit Q (send "{ftp_timeout}" "FTP-сервер не отвечает") late in
      idle-Fair start_timer (emit Q close told) refl refl r

  connect_to_ftp-Fair :
      (id : ℤ) (d : Downloads Q)
      → d.reply ≡ false
      → d.current_numbers ≡ 0
      → Fair (opened_or_waits Q (connect_to_ftp Q id d))
  unfolding connect_to_ftp
  connect_to_ftp-Fair id d r z =
      let l = d.login_info in
      let knocked = record d { ftp_timed_out = false; ftp_timer = true; login_command = id } in
      if_both (λ r. Fair (opened_or_waits Q r))
        (is_empty l.host || is_empty l.login || is_empty l.password) (d, false)
        (emit Q (login l.login l.password) (emit Q (connect_to_host l.host l.port) knocked), true)
        (idle-Fair start_timer d refl refl r)
        (asked-Fair (login l.login l.password) (emit Q (connect_to_host l.host l.port) knocked) refl
          r (λ _. z))

  pub get_total_size-Fair :
      (id : ℤ) (d : Downloads Q)
      → d.reply ≡ false
      → d.current_numbers ≡ 0
      → d.content_files ≡ []
      → Fair (get_total_size Q id d)
  unfolding get_total_size
  get_total_size-Fair id d r z c =
      let files = Manager.content_files d.manager in
      let d' = emit Q new_ftp (record d { ftp_content_files = files }) in
      let zeroed = record d' {
        total_bytes = pos 0;
        last_bytes = pos 0;
        current_bytes = pos 0;
        manager = Manager.set_total_size (pos 0) d'.manager;
      } in
      elim (List-cases files) [
        | inl n ↦ rw (get_total_size, n) (λ h. (λ _. z, λ _. ground (arith, z, r, ap length c)))
        | inr (info, infos, n) ↦ rw (get_total_size, n) (connect_to_ftp-Fair id zeroed r z)
      ]
