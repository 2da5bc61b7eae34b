-- ===== src/Download/Course/Mode.antt =====
-- What the download manager awaits after each of its signals, by the signal.
use mediaupdater.Base.{
  ◌≡◌, refl, ap, sym, subst, ◌∙◌, inl, inr, String, ◌<>◌, Bool, true, false, ◌&&◌, ◌==◌, some, List,
  [], ◌∷◌, arith, if_both, if_true, if_false, if◌then◌else◌, Bool-cases,
}
use mediaupdater.Base.Text.{is_empty}
use mediaupdater.Base.Int.{int_eq}
use mediaupdater.Qt.{Qt}
use mediaupdater.Station.{Station}
use mediaupdater.Content.{ContentInfo}
use mediaupdater.Download.{
  Downloads, emit, list, close, send, start_timer, post_next_download, abort,
}
use mediaupdater.Download.Ftp.{
  is_harmless, is_logged_in, Finished, UrlInfo, next_of, next_ftp_file, add_file, list_info,
  ftp_command_finished, on_ftp_timeout,
}
use mediaupdater.Download.Transfer.{save_downloaded_file, reply_error, on_download_timeout}
use mediaupdater.Download.Course.{
  Event, started, listed, command_finished, ftp_timed_out, next, ready_read, progressed, failed,
  finished, timed_out, can_come, handle, Valid, walks,
}
use mediaupdater.Download.Course.Walk.{last_action-append}
use mediaupdater.Download.Course.Reply.{with_reply}
use mediaupdater.Download.Course.Safety.{some_inj}
use mediaupdater.Download.Course.Phase.{transfer_ends, Posted}
use mediaupdater.Download.Course.Await.{awaits}
use mediaupdater.Download.Course.Turn.Signals.{saved_keeps, progressed_keeps}

module _ (Q : Qt) where
  -- An answer of the server or a posted step is awaited.
  abbrev pub GoesOn : Downloads Q → Type 0
  GoesOn d = (awaits Q d ≡ 1) × (d.reply ≡ false)

  next_of-GoesOn :
      (files : List ContentInfo) (d : Downloads Q) → d.reply ≡ false → GoesOn (next_of Q files d)
  unfolding next_of
  next_of-GoesOn [] d r =
      let closed = emit Q close (record d { ftp_content_files = [] }) in
      (rw (last_action-append closed.trace post_next_download, r) refl, r)
  next_of-GoesOn (info ∷ infos) d r =
      let d' = record d { current = info; ftp_content_files = infos } in
      if_both GoesOn (is_empty info.server_path) (next_of Q infos d')
        (emit Q (list info.server_path) (record d' { ftp_timed_out = false; ftp_timer = true }))
        (next_of-GoesOn infos d' r)
        (rw (last_action-append d.trace (list info.server_path), r) refl, r)

  list_info-GoesOn : (info : UrlInfo) (d : Downloads Q) → GoesOn d → GoesOn (list_info Q info d)
  unfolding list_info next_ftp_file add_file
  list_info-GoesOn info d g =
      let d' = record d { ftp_timer = false } in
      if_both GoesOn d.ftp_timed_out d'
        (next_ftp_file Q (if info.is_valid_file then add_file Q info d' else d')) g
        (if_both (λ (e : Downloads Q). GoesOn (next_ftp_file Q e)) info.is_valid_file
          (add_file Q info d') d' (next_of-GoesOn d.ftp_content_files (add_file Q info d') g.1)
          (next_of-GoesOn d.ftp_content_files d' g.1))

  ftp_command_finished_reply :
      (f : Finished) (d : Downloads Q) → GoesOn d → (ftp_command_finished Q f d).reply ≡ false
  unfolding ftp_command_finished next_ftp_file
  ftp_command_finished_reply f d g =
      let d' = record d { ftp_timer = false } in
      let on = (next_of-GoesOn d.ftp_content_files d' g.1).1 in
      let told = emit Q (send "{ftp_error}" f.error_string) d' in
      let no_reply = λ (e : Downloads Q). e.reply ≡ false in
      if_both no_reply d.ftp_timed_out d _ g.1 (
        if_both no_reply f.failed _ _
          (if_both no_reply (is_harmless f.error) (next_ftp_file Q d') (emit Q start_timer told) on
            g.1)
          (if_both no_reply (is_logged_in f.state && d.login_command == f.id) (next_ftp_file Q d') d
            on g.1))

  pub on_ftp_timeout_rests : (d : Downloads Q) → d.reply ≡ false → awaits Q (on_ftp_timeout Q d) ≡ 0
  unfolding on_ftp_timeout
  on_ftp_timeout_rests d r =
      let late = record d { ftp_timed_out = true; ftp_timer = false } in
      let told = emit Q (send "{ftp_timeout}" "FTP-сервер не отвечает") late in
      rw (last_action-append (emit Q close told).trace start_timer, r) refl

module _ (Q : Qt) (st : Station) where
  -- What is awaited after a signal: after an answer the walk goes on or is over, after the server's
  -- silence nothing; a transfer goes on until it finishes, and then a step is posted.
  abbrev pub Leaves : Event → Downloads Q → Type 0
  Leaves (listed info) d = GoesOn Q d
  Leaves (command_finished f) d = d.reply ≡ false
  Leaves ftp_timed_out d = awaits Q d ≡ 0
  Leaves (next id) d = Unit
  Leaves (started l id) d = Unit
  Leaves (finished no_error) d = Posted Q st d
  Leaves _ d = d.reply ≡ true

  walk-GoesOn : (d : Downloads Q) → awaits Q d ≡ 1 → walks Q d ≡ true → GoesOn Q d
  walk-GoesOn d o w = (o, ground arith)

  late_reply :
      (bytes : String) (available : Bool) (d d' : Downloads Q)
      → d.reply ≡ true
      → on_download_timeout Q st bytes available d ≡ some d'
      → d'.reply ≡ true
  unfolding on_download_timeout
  late_reply bytes available d d' r e =
      let idle = record d { download_timer = false } in
      let warning = send "{download_timeout}" ("File:" <> d.current.file_name) in
      let late = record (emit Q warning idle) { download_timed_out = true } in
      let goes = sym (with_reply d.reply _ r) ∙ e in
      elim (Bool-cases available) [
        | inl y ↦
            (saved_keeps Q st bytes idle d'
              (sym (if_true available _ (some (emit Q abort late)) y) ∙ goes)).1
            ∙ r
        | inr n ↦
            sym (
              ap (λ (d : Downloads Q). d.reply)
                (some_inj
                  (sym (if_false available (save_downloaded_file Q st bytes idle) _ n) ∙ goes)))
            ∙ r
      ]

  pub handle-Leaves :
      (e : Event) (d d' : Downloads Q)
      → Valid Q d
      → awaits Q d ≡ 1
      → can_come Q e d ≡ true
      → handle Q st e d ≡ some d'
      → Leaves e d'
  unfolding handle reply_error
  handle-Leaves (started l id) d d' v o h r = tt
  handle-Leaves (listed info) d d' v o h r =
      subst (GoesOn Q) (some_inj r) (list_info-GoesOn Q info d (walk-GoesOn d o (ground arith)))
  handle-Leaves (command_finished f) d d' v o h r =
      subst (λ (d : Downloads Q). d.reply ≡ false) (some_inj r)
        (ftp_command_finished_reply Q f d (walk-GoesOn d o h))
  handle-Leaves ftp_timed_out d d' v o h r =
      subst (λ d. awaits Q d ≡ 0) (some_inj r)
        (on_ftp_timeout_rests Q d (walk-GoesOn d o (ground arith)).1)
  handle-Leaves (next id) d d' v o h r = tt
  handle-Leaves (ready_read bytes) d d' v o h r = (saved_keeps Q st bytes d d' r).1 ∙ h
  handle-Leaves (progressed cb tb) d d' v o h r = (progressed_keeps Q st cb tb d d' r).1 ∙ h
  handle-Leaves failed d d' v o h r = sym (ap (λ (d : Downloads Q). d.reply) (some_inj r)) ∙ h
  handle-Leaves (finished no_error) d d' v o h r =
      let (d'', r', _, _, _, p) = transfer_ends Q st no_error d v h in
      subst (Posted Q st) (some_inj (sym r' ∙ r)) p
  handle-Leaves (timed_out bytes available) d d' v o h r =
      late_reply bytes available d d' (ground arith) r
