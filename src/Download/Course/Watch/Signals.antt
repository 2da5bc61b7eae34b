-- ===== src/Download/Course/Watch/Signals.antt =====
-- The timer of the FTP server over the two phases, and of whatever comes to the download manager.
use mediaupdater.Base.{
  ◌≡◌, refl, ap, sym, subst, ◌∙◌, inl, inr, String, ◌<>◌, Bool, true, false, some, List, [], ◌∷◌,
  arith, if_true, if_false, Bool-cases, Option-cases,
}
use mediaupdater.Base.Int.{ℤ, pos, int_eq}
use mediaupdater.Base.Lists.{List-cases}
use mediaupdater.LoginInfo.{LoginInfo}
use mediaupdater.Qt.{Qt}
use mediaupdater.Station.{Station, rev_local}
use mediaupdater.Content.{ContentInfo}
use mediaupdater.Manager
use mediaupdater.Download.{
  Downloads, emit, send, start_timer, post_next_download, set_login_info, check_connection_settings,
  abort, get,
}
use mediaupdater.Download.Phases.{
  add_content, start, start_content, take_revision, announce, begin_download, next_download,
  next_download_of, finish,
}
use mediaupdater.Download.Transfer.{
  current_path, set_marks, save_downloaded_file, download_progress, report_progress,
  download_finished, reply_error, on_download_timeout,
}
use mediaupdater.Download.Course.{
  Event, started, listed, command_finished, ftp_timed_out, next, ready_read, progressed, failed,
  finished, timed_out, may_come, handle,
}
use mediaupdater.Download.Course.Reply.{finished_at, with_reply}
use mediaupdater.Download.Course.Safety.{some_inj}
use mediaupdater.Download.Course.Turn.{is_started, none_differs, finished_of}
use mediaupdater.Download.Course.Watch.{
  Watched, quiet-Watched, list_info-Watched, ftp_command_finished-Watched, get_total_size-Watched,
  on_ftp_timeout-Watched, kept-Watched,
}

module _ (Q : Qt) (st : Station) where
  saved-Watched :
      (bytes : String) (d d' : Downloads Q)
      → Watched Q d
      → save_downloaded_file Q st bytes d ≡ some d'
      → Watched Q d'
  unfolding save_downloaded_file current_path
  saved-Watched bytes d d' v e = kept-Watched Q d d' v (ground arith) (ground arith) (ground arith)

  progressed-Watched :
      (cb tb : ℤ) (d d' : Downloads Q)
      → Watched Q d
      → download_progress Q st cb tb d ≡ some d'
      → Watched Q d'
  unfolding download_progress current_path
  progressed-Watched cb tb d d' v e =
      kept-Watched Q d d' v (ground arith) (ground arith) (ground arith)

  pub start-Watched :
      (l : LoginInfo) (id : ℤ) (d : Downloads Q) → Watched Q (start Q st id (set_login_info Q l d))
  unfolding start set_login_info check_connection_settings add_content
  start-Watched l id d = get_total_size-Watched Q id _

  start_content-Watched : (id : ℤ) (d : Downloads Q) → Watched Q (start_content Q st id d)
  unfolding start_content add_content
  start_content-Watched id d = get_total_size-Watched Q id _

  finish-Watched : (d : Downloads Q) → Watched Q (finish Q st d)
  unfolding finish
  finish-Watched d =
      let told = emit Q (send "{update_finished}" "Загрузка файлов завершена") d in
      let (m, w) = Manager.sync_content Q st (told.manager, told.world) in
      let waiting = emit Q start_timer (record told { manager = m; world = w }) in
      quiet-Watched Q (send "{revision}" (Q.number (rev_local Q st d.login_info.box_id w)))
        (emit Q (send "{update_success}" "Обновление файлов завершено") waiting) refl

  begin_download-Watched :
      (info : ContentInfo) (infos : List ContentInfo) (d : Downloads Q)
      → Watched Q (begin_download Q st info infos d)
  unfolding begin_download
  begin_download-Watched info infos d =
      quiet-Watched Q (get info.url)
        (record (announce Q st info d) {
          content_files = infos;
          current = info;
          last_bytes = pos 0;
          download_timed_out = false;
          full_download_bytes = false;
          reply = true;
          download_timer = true;
        })
        refl

  next_download-Watched :
      (id : ℤ) (d d' : Downloads Q) → next_download Q st id d ≡ some d' → Watched Q d'
  unfolding next_download next_download_of
  next_download-Watched id d d' e =
      let at = λ (l : List ContentInfo) (h : d.content_files ≡ l).
        sym (ap (λ l. next_download_of Q st id l d) h) ∙ e in
      elim (List-cases d.content_files) [
        | inr (info, infos, n) ↦
            subst (Watched Q) (some_inj (at (info ∷ infos) n)) (begin_download-Watched info infos d)
        | inl n ↦ elim (Bool-cases d.revision) [
          | inl y ↦
              subst (Watched Q) (some_inj (sym (if_true d.revision _ _ y) ∙ at [] n))
                (start_content-Watched id d)
          | inr c ↦
              let checked = sym (if_false d.revision _ _ c) ∙ at [] n in
              elim (Option-cases (take_revision Q st d)) [
                | inl f ↦
                    absurd (none_differs (subst (λ o. finished_of Q st o ≡ some d') f checked))
                | inr (d'', f) ↦
                    subst (Watched Q)
                      (some_inj (subst (λ o. finished_of Q st o ≡ some d') f checked))
                      (finish-Watched d'')
              ]
        ]
      ]

  download_finished-Watched :
      (no_error : Bool) (d d' : Downloads Q)
      → d.reply ≡ true
      → download_finished Q st no_error d ≡ some d'
      → Watched Q d'
  unfolding download_finished
  download_finished-Watched no_error d d' r e = elim (Option-cases (current_path Q st d)) [
    | inl f ↦ absurd (ground arith)
    | inr ((d'', dir, path), f) ↦
        subst (Watched Q) (some_inj (sym (finished_at Q st d d'' dir path no_error f r) ∙ e)) (
          quiet-Watched Q post_next_download
            (report_progress Q st (record d'' {
              download_timer = false;
              world = set_marks Q st (Q.exists path d.world) no_error d d.world;
              reply = false;
            }))
            refl)
  ]

  reply_error-Watched : (d : Downloads Q) → Watched Q (reply_error Q st d)
  unfolding reply_error
  reply_error-Watched d =
      quiet-Watched Q (send "{download_error}" ("File:" <> d.current.file_name))
        (record d { download_timer = false }) refl

  on_download_timeout-Watched :
      (bytes : String) (available : Bool) (d d' : Downloads Q)
      → Watched Q d
      → d.reply ≡ true
      → on_download_timeout Q st bytes available d ≡ some d'
      → Watched Q d'
  unfolding on_download_timeout
  on_download_timeout-Watched bytes available d d' v r e =
      let idle = record d { download_timer = false } in
      let warning = send "{download_timeout}" ("File:" <> d.current.file_name) in
      let late = record (emit Q warning idle) { download_timed_out = true } in
      let goes = sym (with_reply d.reply _ r) ∙ e in
      elim (Bool-cases available) [
        | inl y ↦
            saved-Watched bytes idle d' v
              (sym (if_true available _ (some (emit Q abort late)) y) ∙ goes)
        | inr n ↦
            subst (Watched Q)
              (some_inj
                (sym (if_false available (save_downloaded_file Q st bytes idle) _ n) ∙ goes))
              (quiet-Watched Q abort late refl)
      ]

  -- Whatever may come to the download manager, its timer runs after it where the server is asked.
  pub handle-Watched :
      (e : Event) (d d' : Downloads Q)
      → is_started e ≡ false
      → may_come Q e d ≡ true
      → Watched Q d
      → handle Q st e d ≡ some d'
      → Watched Q d'
  unfolding handle
  handle-Watched (started l id) d d' s h v r = absurd cc
  handle-Watched (listed info) d d' s h v r =
      subst (Watched Q) (some_inj r) (list_info-Watched Q info d v)
  handle-Watched (command_finished f) d d' s h v r =
      subst (Watched Q) (some_inj r) (ftp_command_finished-Watched Q f d v)
  handle-Watched ftp_timed_out d d' s h v r =
      subst (Watched Q) (some_inj r) (on_ftp_timeout-Watched Q d)
  handle-Watched (next id) d d' s h v r = next_download-Watched id d d' r
  handle-Watched (ready_read bytes) d d' s h v r = saved-Watched bytes d d' v r
  handle-Watched (progressed cb tb) d d' s h v r = progressed-Watched cb tb d d' v r
  handle-Watched failed d d' s h v r = subst (Watched Q) (some_inj r) (reply_error-Watched d)
  handle-Watched (finished no_error) d d' s h v r = download_finished-Watched no_error d d' h r
  handle-Watched (timed_out bytes available) d d' s h v r =
      on_download_timeout-Watched bytes available d d' v (ground (arith, h)) r
