-- ===== src/Download/Course/Tally/Signals.antt =====
-- The count of the files over the phases, and over whatever comes to the download manager.
use mediaupdater.Base.{
  ◌≡◌, refl, ap, sym, subst, ◌∙◌, inl, inr, String, ◌<>◌, Bool, true, false, ◌||◌, some, List, [],
  ◌∷◌, arith, if_true, if_false, Bool-cases, Option-cases,
}
use mediaupdater.Base.Int.{ℤ, int_eq}
use mediaupdater.Base.Lists.{length, List-cases}
use mediaupdater.LoginInfo.{LoginInfo}
use mediaupdater.Qt.{Qt}
use mediaupdater.Station.{Station, rev_local}
use mediaupdater.Manager
use mediaupdater.Content.{ContentInfo}
use mediaupdater.Download.{Downloads, Action, emit, send, start_timer, abort, set_login_info, get}
use mediaupdater.Download.Phases.{
  add_content, start, start_content, announce, begin_download, next_download, next_download_of,
  finish, take_revision,
}
use mediaupdater.Download.Transfer.{
  save_downloaded_file, download_finished, download_progress, reply_error, on_download_timeout,
}
use mediaupdater.Download.Transfer.Progress.{Counted, Step-Counted, began}
use mediaupdater.Download.Transfer.Progress
use mediaupdater.Download.Course.Phase.{begin_download_keeps, transfer_ends, Posted}
use mediaupdater.Download.Course.{
  Valid, last_action, is_list, is_login, is_post, posted, Event, started, listed, command_finished,
  ftp_timed_out, next, ready_read, progressed, failed, finished, timed_out, can_come, handle,
}
use mediaupdater.Download.Course.Walk.{last_action-append}
use mediaupdater.Download.Course.Round.{get_total_size-revision}
use mediaupdater.Download.Course.Await.{awaits}
use mediaupdater.Download.Course.Reply.{with_reply}
use mediaupdater.Download.Course.Safety.{some_inj}
use mediaupdater.Download.Course.Turn.{is_started, none_differs, finished_of, take_revision_keeps}
use mediaupdater.Download.Course.Tally.{
  Fair, idle-Fair, list_info-Fair, ftp_command_finished-Fair, on_ftp_timeout-Fair,
  get_total_size-Fair,
}

module _ (Q : Qt) (st : Station) where
  -- A round starts with a revision phase.
  pub start-Fair :
      (l : LoginInfo) (id : ℤ) (d : Downloads Q) → Fair Q st (start Q st id (set_login_info Q l d))
  unfolding start
  start-Fair l id d h = absurd (ground (arith, sym (get_total_size-revision Q id _) ∙ h))

  start_content-Fair :
      (id : ℤ) (d : Downloads Q) → d.reply ≡ false → Fair Q st (start_content Q st id d)
  unfolding start_content add_content
  start_content-Fair id d r = get_total_size-Fair Q st id _ r refl refl

  finish-Fair : (d : Downloads Q) → d.reply ≡ false → Fair Q st (finish Q st d)
  unfolding finish
  finish-Fair d r =
      let told = emit Q (send "{update_finished}" "Загрузка файлов завершена") d in
      let (m, w) = Manager.sync_content Q st (told.manager, told.world) in
      let waiting = emit Q start_timer (record told { manager = m; world = w }) in
      idle-Fair Q st (send "{revision}" (Q.number (rev_local Q st d.login_info.box_id w)))
        (emit Q (send "{update_success}" "Обновление файлов завершено") waiting) refl refl r

  begin_download-Fair :
      (info : ContentInfo) (infos : List ContentInfo) (d : Downloads Q)
      → d.content_files ≡ info ∷ infos
      → d.reply ≡ false
      → posted Q d ≡ true
      → Fair Q st d
      → Fair Q st (begin_download Q st info infos d)
  unfolding begin_download announce
  begin_download-Fair info infos d n r p f h =
      let kept = (f (sym (begin_download_keeps Q st info infos d) ∙ h)).1 (ground (arith, p)) in
      (
        λ w.
            absurd (ground (arith, last_action-append (announce Q st info d).trace (get info.url))),
        λ _. Step-Counted Q st (began info infos r n) kept,
      )

  next_download-Fair :
      (id : ℤ) (d d' : Downloads Q)
      → d.reply ≡ false
      → posted Q d ≡ true
      → Fair Q st d
      → next_download Q st id d ≡ some d'
      → Fair Q st d'
  unfolding next_download next_download_of
  next_download-Fair id d d' r p f e =
      let at = λ (l : List ContentInfo) (h : d.content_files ≡ l).
        sym (ap (λ l. next_download_of Q st id l d) h) ∙ e in
      elim (List-cases d.content_files) [
        | inr (info, infos, n) ↦
            subst (Fair Q st) (some_inj (at (info ∷ infos) n))
              (begin_download-Fair info infos d n r p f)
        | inl n ↦ elim (Bool-cases d.revision) [
          | inl y ↦
              subst (Fair Q st) (some_inj (sym (if_true d.revision _ _ y) ∙ at [] n))
                (start_content-Fair id d r)
          | inr c ↦
              let checked = sym (if_false d.revision _ _ c) ∙ at [] n in
              elim (Option-cases (take_revision Q st d)) [
                | inl t ↦
                    absurd (none_differs (subst (λ o. finished_of Q st o ≡ some d') t checked))
                | inr (d'', t) ↦
                    let (_, same) = take_revision_keeps Q st d d'' t in
                    subst (Fair Q st)
                      (some_inj (subst (λ o. finished_of Q st o ≡ some d') t checked))
                      (finish-Fair d'' (same ∙ r))
              ]
        ]
      ]

  -- What a signal of a reply leaves: the trace, the counters and the phase.
  abbrev Same : Downloads Q → Downloads Q → Type 0
  Same d d' =
      (d'.trace ≡ d.trace)
      × (d'.reply ≡ d.reply)
      × (d'.revision ≡ d.revision)
      × (d'.current_numbers ≡ d.current_numbers)
      × (d'.content_files ≡ d.content_files)
      × (d'.content_files_numbers ≡ d.content_files_numbers)

  left-Fair : (d d' : Downloads Q) → Same d d' → Fair Q st d → Fair Q st d'
  left-Fair d d' (t, r, v, c, n, m) f h =
      let (z, k) = f (sym v ∙ h) in
      (
        λ w. c ∙ z (sym (ap (λ t. is_login (last_action t) || is_list (last_action t)) t) ∙ w),
        λ p.
            let kept = k (ground (arith, ap (λ t. is_post (last_action t)) t, r, p)) in
            ground (arith, kept, c, ap length n, m, r),
      )

  saved-Same :
      (bytes : String) (d d' : Downloads Q)
      → save_downloaded_file Q st bytes d ≡ some d'
      → Same d d'
  unfolding save_downloaded_file
  saved-Same bytes d d' e = ground arith

  progressed-Same :
      (cb tb : ℤ) (d d' : Downloads Q) → download_progress Q st cb tb d ≡ some d' → Same d d'
  unfolding download_progress
  progressed-Same cb tb d d' e = ground arith

  -- A transfer that goes on.
  busy-Fair :
      (a : Action) (d : Downloads Q)
      → is_login (some a) || is_list (some a) ≡ false
      → (d.revision ≡ false → Counted Q st d)
      → Fair Q st (emit Q a d)
  busy-Fair a d w k h = (λ x. absurd (ground (arith, last_action-append d.trace a)), λ _. k h)

  reply_error-Fair :
      (d : Downloads Q) → d.reply ≡ true → Fair Q st d → Fair Q st (reply_error Q st d)
  unfolding reply_error
  reply_error-Fair d r f =
      busy-Fair (send "{download_error}" ("File:" <> d.current.file_name))
        (record d { download_timer = false }) refl (λ h. (f h).1 (ground (arith, r)))

  on_download_timeout-Fair :
      (bytes : String) (available : Bool) (d d' : Downloads Q)
      → d.reply ≡ true
      → on_download_timeout Q st bytes available d ≡ some d'
      → Fair Q st d
      → Fair Q st d'
  unfolding on_download_timeout
  on_download_timeout-Fair bytes available d d' r e f =
      let idle = record d { download_timer = false } in
      let warning = send "{download_timeout}" ("File:" <> d.current.file_name) in
      let late = record (emit Q warning idle) { download_timed_out = true } in
      let goes = sym (with_reply d.reply _ r) ∙ e in
      elim (Bool-cases available) [
        | inl y ↦
            left-Fair idle d'
              (saved-Same bytes idle d'
                (sym (if_true available _ (some (emit Q abort late)) y) ∙ goes))
              f
        | inr n ↦
            subst (Fair Q st)
              (some_inj
                (sym (if_false available (save_downloaded_file Q st bytes idle) _ n) ∙ goes))
              (busy-Fair abort late refl (λ h. (f h).1 (ground (arith, r))))
      ]

  download_finished-Fair :
      (no_error : Bool) (d d' : Downloads Q)
      → Valid Q d
      → d.reply ≡ true
      → download_finished Q st no_error d ≡ some d'
      → Fair Q st d
      → Fair Q st d'
  download_finished-Fair no_error d d' v r e f =
      let (d'', e', _, _, phase, p) = transfer_ends Q st no_error d v r in
      let same : d'' ≡ d' = some_inj (sym e' ∙ e) in
      let p' = subst (Posted Q st) same p in
      let phase' = sym (ap (λ (d : Downloads Q). d.revision) same) ∙ phase in
      λ h. (
        λ w. absurd (ground (arith, p')),
        λ _.
            Step-Counted Q st (Progress.finished no_error r e)
              ((f (sym phase' ∙ h)).1 (ground (arith, r))),
      )

  -- Whatever comes to the download manager that waits for one thing.
  pub handle-Fair :
      (e : Event) (d d' : Downloads Q)
      → is_started e ≡ false
      → Valid Q d
      → awaits Q d ≡ 1
      → can_come Q e d ≡ true
      → Fair Q st d
      → handle Q st e d ≡ some d'
      → Fair Q st d'
  unfolding handle
  handle-Fair (started l id) d d' s v o h f r = absurd cc
  handle-Fair (listed info) d d' s v o h f r =
      subst (Fair Q st) (some_inj r)
        (list_info-Fair Q st info d (ground (arith, h)) (ground (arith, h, o)) f)
  handle-Fair (command_finished c) d d' s v o h f r =
      subst (Fair Q st) (some_inj r) (ftp_command_finished-Fair Q st c d h (ground (arith, h, o)) f)
  handle-Fair ftp_timed_out d d' s v o h f r =
      subst (Fair Q st) (some_inj r) (on_ftp_timeout-Fair Q st d (ground (arith, h, o)))
  handle-Fair (next id) d d' s v o h f r =
      next_download-Fair id d d' (ground (arith, h)) (ground (arith, h)) f r
  handle-Fair (ready_read bytes) d d' s v o h f r = left-Fair d d' (saved-Same bytes d d' r) f
  handle-Fair (progressed cb tb) d d' s v o h f r = left-Fair d d' (progressed-Same cb tb d d' r) f
  handle-Fair failed d d' s v o h f r = subst (Fair Q st) (some_inj r) (reply_error-Fair d h f)
  handle-Fair (finished no_error) d d' s v o h f r = download_finished-Fair no_error d d' v h r f
  handle-Fair (timed_out bytes available) d d' s v o h f r =
      on_download_timeout-Fair bytes available d d' (ground (arith, h)) r f
