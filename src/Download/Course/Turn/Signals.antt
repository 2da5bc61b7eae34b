-- ===== src/Download/Course/Turn/Signals.antt =====
-- What is left to wait for by the signals of a reply, and of whatever comes to the download manager.
use mediaupdater.Base.{
  ℕ, suc, ◌≡◌, refl, ap, sym, subst, ◌∙◌, inl, inr, String, ◌<>◌, Bool, true, false, not, ◌&&◌,
  some, arith, if_both, if_true, if_false, Bool-cases, Option-cases,
}
use mediaupdater.Base.Int.{ℤ, ltb}
use mediaupdater.Qt.{Qt}
use mediaupdater.Station.{Station}
use mediaupdater.Download.{Downloads, emit, send, post_next_download, abort}
use mediaupdater.Download.Transfer.{
  current_path, set_marks, save_downloaded_file, report_progress, download_finished,
  download_progress, reply_error, on_download_timeout,
}
use mediaupdater.Download.Course.{
  Event, started, listed, command_finished, ftp_timed_out, next, ready_read, progressed, failed,
  finished, timed_out, can_come, handle,
}
use mediaupdater.Download.Course.Reply.{finished_at, with_reply}
use mediaupdater.Download.Course.Safety.{some_inj}
use mediaupdater.Download.Course.Await.{
  count, awaits, timers, Turns, told_timers, asked-Turns, kept-Turns, list_info-Turns,
  ftp_command_finished-Turns, on_ftp_timeout-Turns,
}
use mediaupdater.Download.Course.Turn.{next_download-Turns, is_started}

module _ (Q : Qt) (st : Station) where
  -- What a signal of the reply does to what is awaited.
  pub saved_keeps :
      (bytes : String) (d d' : Downloads Q)
      → save_downloaded_file Q st bytes d ≡ some d'
      → (d'.trace ≡ d.trace) × (d'.reply ≡ d.reply)
  unfolding save_downloaded_file
  saved_keeps bytes d d' e = (ground arith, ground arith)

  pub progressed_keeps :
      (cb tb : ℤ) (d d' : Downloads Q)
      → download_progress Q st cb tb d ≡ some d'
      → (d'.trace ≡ d.trace) × (d'.reply ≡ d.reply)
  unfolding download_progress
  progressed_keeps cb tb d d' e = (ground arith, ground arith)

  path_keeps :
      (d d' : Downloads Q) (dir path : String)
      → current_path Q st d ≡ some (d', dir, path)
      → d'.trace ≡ d.trace
  unfolding current_path
  path_keeps d d' dir path e = ground arith

  pub report_progress_told :
      (k : ℕ) (d : Downloads Q)
      → timers d.trace ≡ k
      → ((report_progress Q st d).reply ≡ d.reply) × (timers (report_progress Q st d).trace ≡ k)
  unfolding report_progress
  report_progress_told k d e =
      if_both (λ (x : Downloads Q). (x.reply ≡ d.reply) × (timers x.trace ≡ k))
        (not d.revision && ltb 0 d.content_files_numbers) _ d
        (refl, told_timers Q _ k (record d { current_numbers = suc d.current_numbers }) refl e)
        (refl, e)

  download_finished-Turns :
      (no_error : Bool) (d d' : Downloads Q)
      → awaits Q d ≡ 1
      → d.reply ≡ true
      → download_finished Q st no_error d ≡ some d'
      → Turns Q (timers d.trace) d'
  unfolding download_finished report_progress
  download_finished-Turns no_error d d' o r e = elim (Option-cases (current_path Q st d)) [
    | inl f ↦ absurd (ground arith)
    | inr ((d'', dir, path), f) ↦
        let k = timers d.trace in
        let done = record d'' {
          download_timer = false;
          world = set_marks Q st (Q.exists path d.world) no_error d d.world;
          reply = false;
        } in
        let (idle, same) = report_progress_told k done (ap timers (path_keeps d d'' dir path f)) in
        subst (Turns Q k) (some_inj (sym (finished_at Q st d d'' dir path no_error f r) ∙ e)) (
          asked-Turns Q post_next_download k (report_progress Q st done) refl
            (omega (arith, ap count idle)) same)
  ]

  reply_error-Turns :
      (d : Downloads Q)
      → awaits Q d ≡ 1
      → d.reply ≡ true
      → Turns Q (timers d.trace) (reply_error Q st d)
  unfolding reply_error
  reply_error-Turns d o r =
      asked-Turns Q (send "{download_error}" ("File:" <> d.current.file_name)) (timers d.trace)
        (record d { download_timer = false }) refl (rw r refl) refl

  on_download_timeout-Turns :
      (bytes : String) (available : Bool) (d d' : Downloads Q)
      → awaits Q d ≡ 1
      → d.reply ≡ true
      → on_download_timeout Q st bytes available d ≡ some d'
      → Turns Q (timers d.trace) d'
  unfolding on_download_timeout
  on_download_timeout-Turns bytes available d d' o r e =
      let k = timers d.trace in
      let idle = record d { download_timer = false } in
      let warning = send "{download_timeout}" ("File:" <> d.current.file_name) in
      let late = record (emit Q warning idle) { download_timed_out = true } in
      let goes = sym (with_reply d.reply _ r) ∙ e in
      elim (Bool-cases available) [
        | inl y ↦
            let (t, same) =
              saved_keeps bytes idle d'
                (sym (if_true available _ (some (emit Q abort late)) y) ∙ goes) in
            kept-Turns Q d d' o t same
        | inr n ↦
            subst (Turns Q k)
              (some_inj
                (sym (if_false available (save_downloaded_file Q st bytes idle) _ n) ∙ goes))
              (asked-Turns Q abort k late refl (rw r refl) (told_timers Q warning k idle refl refl))
      ]

  -- After any call or signal but the start of a round there is one thing to wait for, or nothing, and
  -- then the next round is asked for, once.
  pub handle-Turns :
      (e : Event) (d d' : Downloads Q)
      → is_started e ≡ false
      → awaits Q d ≡ 1
      → can_come Q e d ≡ true
      → handle Q st e d ≡ some d'
      → Turns Q (timers d.trace) d'
  unfolding handle
  handle-Turns (started l id) d d' s o h r = absurd cc
  handle-Turns (listed info) d d' s o h r =
      subst (Turns Q (timers d.trace)) (some_inj r) (list_info-Turns Q info d o h)
  handle-Turns (command_finished f) d d' s o h r =
      subst (Turns Q (timers d.trace)) (some_inj r) (ftp_command_finished-Turns Q f d o h)
  handle-Turns ftp_timed_out d d' s o h r =
      subst (Turns Q (timers d.trace)) (some_inj r) (on_ftp_timeout-Turns Q d o (ground arith))
  handle-Turns (next id) d d' s o h r = next_download-Turns Q st id d d' (ground arith) r
  handle-Turns (ready_read bytes) d d' s o h r =
      let (t, same) = saved_keeps bytes d d' r in kept-Turns Q d d' o t same
  handle-Turns (progressed cb tb) d d' s o h r =
      let (t, same) = progressed_keeps cb tb d d' r in kept-Turns Q d d' o t same
  handle-Turns failed d d' s o h r =
      subst (Turns Q (timers d.trace)) (some_inj r) (reply_error-Turns d o h)
  handle-Turns (finished no_error) d d' s o h r = download_finished-Turns no_error d d' o h r
  handle-Turns (timed_out bytes available) d d' s o h r =
      on_download_timeout-Turns bytes available d d' o (ground arith) r
