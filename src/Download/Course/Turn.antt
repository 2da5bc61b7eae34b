-- ===== src/Download/Course/Turn.antt =====
-- What the phases of the download manager leave to wait for, and when they ask for the next round.
pub mod Signals
use mediaupdater.Base.{
  ℕ, suc, ◌≡◌, refl, ap, sym, subst, ◌∙◌, inl, inr, String, ◌<>◌, Bool, true, false, not, ◌&&◌,
  Option, none, some, List, [], ◌∷◌, arith, if_both, if_true, if_false, Bool-cases, Option-cases,
}
use mediaupdater.Base.Int.{ℤ, pos, ltb}
use mediaupdater.Base.Lists.{length, List-cases}
use mediaupdater.LoginInfo.{LoginInfo}
use mediaupdater.Qt.{Qt}
use mediaupdater.Station.{Station, rev_local}
use mediaupdater.Content.{ContentInfo}
use mediaupdater.Manager
use mediaupdater.Download.{
  Downloads, emit, send, start_timer, post_next_download, get, abort, set_login_info,
  check_connection_settings,
}
use mediaupdater.Download.Phases.{
  add_content, start, start_content, take_revision, announce, begin_download, next_download,
  next_download_of, finish,
}
use mediaupdater.Download.Transfer.{
  current_path, set_marks, save_downloaded_file, report_progress, download_finished,
  download_progress, reply_error, on_download_timeout,
}
use mediaupdater.Download.Course.{
  Event, started, listed, command_finished, ftp_timed_out, next, ready_read, progressed, failed,
  finished, timed_out, can_come, handle,
}
use mediaupdater.Download.Course.Walk.{last_action-append}
use mediaupdater.Download.Course.Reply.{finished_at, with_reply}
use mediaupdater.Download.Course.Safety.{some_inj}
use mediaupdater.Download.Course.Await.{
  count, awaits, timers, timers-append, Turns, told_timers, asked-Turns, kept-Turns,
  get_total_size-Turns, list_info-Turns, ftp_command_finished-Turns, on_ftp_timeout-Turns,
}

-- The start of a round, by the update controller.
abbrev pub is_started : Event → Bool
is_started (started l id) = true
is_started _ = false

pub none_differs : {A : Type 0} {a : A} → none ≡ some a → ⊥
none_differs e = cc

module _ (Q : Qt) (st : Station) where
  -- A round begins: its first phase asks the server, or posts its first step, or waits for the next.
  pub start-Turns :
      (l : LoginInfo) (id : ℤ) (d : Downloads Q)
      → d.reply ≡ false
      → Turns Q (timers d.trace) (start Q st id (set_login_info Q l d))
  unfolding start set_login_info check_connection_settings add_content
  start-Turns l id d r =
      let settled = check_connection_settings Q st (set_login_info Q l d) in
      get_total_size-Turns Q id (timers d.trace) _ r
        (told_timers Q (send "{update_progress}" "") (timers d.trace) settled refl refl)

  start_content-Turns :
      (id : ℤ) (d : Downloads Q)
      → d.reply ≡ false
      → Turns Q (timers d.trace) (start_content Q st id d)
  unfolding start_content add_content
  start_content-Turns id d r = get_total_size-Turns Q id (timers d.trace) _ r refl

  finish-Turns :
      (k : ℕ) (d : Downloads Q) → d.reply ≡ false → timers d.trace ≡ k → Turns Q k (finish Q st d)
  unfolding finish
  finish-Turns k d r e =
      let told = emit Q (send "{update_finished}" "Загрузка файлов завершена") d in
      let (m, w) = Manager.sync_content Q st (told.manager, told.world) in
      let synced = record told { manager = m; world = w } in
      let waiting = emit Q start_timer synced in
      let success = send "{update_success}" "Обновление файлов завершено" in
      let revision = send "{revision}" (Q.number (rev_local Q st d.login_info.box_id w)) in
      let one : timers waiting.trace ≡ suc k = omega (
        arith,
        timers-append synced.trace start_timer,
        told_timers Q (send "{update_finished}" "Загрузка файлов завершена") k d refl e,
      ) in
      let ended = emit Q success waiting in
      inr (
        rw (last_action-append ended.trace revision, r) refl,
        told_timers Q revision (suc k) ended refl (told_timers Q success (suc k) waiting refl one),
      )

  begin_download-Turns :
      (info : ContentInfo) (infos : List ContentInfo) (d : Downloads Q)
      → Turns Q (timers d.trace) (begin_download Q st info infos d)
  unfolding begin_download announce
  begin_download-Turns info infos d =
      let k = timers d.trace in
      let told =
        emit Q
          (send "{download_info}" (
            ("Files left: " <> Q.number (pos (length d.content_files)))
            <> (" Current file:" <> info.file_name)))
          d in
      let begun = λ (e : Downloads Q). record e {
        content_files = infos;
        current = info;
        last_bytes = pos 0;
        download_timed_out = false;
        full_download_bytes = false;
        reply = true;
        download_timer = true;
      } in
      if_both (λ (e : Downloads Q). Turns Q k (emit Q (get info.url) (begun e))) d.revision d told
        (asked-Turns Q (get info.url) k (begun d) refl refl refl)
        (asked-Turns Q (get info.url) k (begun told) refl refl (told_timers Q _ k d refl refl))

  pub take_revision_keeps :
      (d d' : Downloads Q)
      → take_revision Q st d ≡ some d'
      → (d'.trace ≡ d.trace) × (d'.reply ≡ d.reply)
  unfolding take_revision
  take_revision_keeps d d' e = (ground arith, ground arith)

  abbrev pub finished_of : Option (Downloads Q) → Option (Downloads Q)
  finished_of o = elim o [ none ↦ none | some d' ↦ some (finish Q st d') ]

  pub next_download-Turns :
      (id : ℤ) (d d' : Downloads Q)
      → d.reply ≡ false
      → next_download Q st id d ≡ some d'
      → Turns Q (timers d.trace) d'
  unfolding next_download next_download_of
  next_download-Turns id d d' r e =
      let k = timers d.trace in
      let at = λ (l : List ContentInfo) (h : d.content_files ≡ l).
        sym (ap (λ l. next_download_of Q st id l d) h) ∙ e in
      elim (List-cases d.content_files) [
        | inr (info, infos, n) ↦
            subst (Turns Q k) (some_inj (at (info ∷ infos) n)) (begin_download-Turns info infos d)
        | inl n ↦ elim (Bool-cases d.revision) [
          | inl y ↦
              subst (Turns Q k) (some_inj (sym (if_true d.revision _ _ y) ∙ at [] n))
                (start_content-Turns id d r)
          | inr c ↦
              let checked = sym (if_false d.revision _ _ c) ∙ at [] n in
              elim (Option-cases (take_revision Q st d)) [
                | inl f ↦ absurd (none_differs (subst (λ o. finished_of o ≡ some d') f checked))
                | inr (d'', f) ↦
                    let (t, same) = take_revision_keeps d d'' f in
                    subst (Turns Q k) (some_inj (subst (λ o. finished_of o ≡ some d') f checked))
                      (finish-Turns k d'' (same ∙ r) (ap timers t))
              ]
        ]
      ]
