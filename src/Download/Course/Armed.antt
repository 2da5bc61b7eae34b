-- ===== src/Download/Course/Armed.antt =====
-- updater/downloadmanager.cpp: the timer of a reply, which runs until the reply ends.
use mediaupdater.Base.{
  ◌≡◌, refl, ap, sym, subst, ◌∙◌, inl, inr, ◌⊎◌, String, ◌<>◌, ◌==◌, Bool, true, false, Option,
  some, List, [], ◌∷◌, arith, if_true, if_false, Bool-cases, Option-cases, string_eq,
}
use mediaupdater.Base.Int.{ℤ}
use mediaupdater.Base.Lists.{List-cases}
use mediaupdater.Qt.{Qt}
use mediaupdater.Station.{Station}
use mediaupdater.Content.{ContentInfo}
use mediaupdater.Download.{Downloads, Action, emit, send, abort}
use mediaupdater.Download.Ftp.{get_total_size, connect_to_ftp}
use mediaupdater.Download.Phases.{
  add_content, start_content, take_revision, begin_download, next_download, next_download_of,
  finish,
}
use mediaupdater.Download.Transfer.{
  save_downloaded_file, download_progress, reply_error, on_download_timeout,
}
use mediaupdater.Download.Course.{
  Event, started, listed, command_finished, ftp_timed_out, next, ready_read, progressed, failed,
  finished, timed_out, can_come, handle, Valid, last_action,
}
use mediaupdater.Download.Course.Walk.{last_action-append}
use mediaupdater.Download.Course.Reply.{with_reply}
use mediaupdater.Download.Course.Safety.{some_inj}
use mediaupdater.Download.Course.Await.{awaits}
use mediaupdater.Download.Course.Turn.{is_started, none_differs, finished_of, take_revision_keeps}
use mediaupdater.Download.Course.Mode.{handle-Leaves}

-- The reply was aborted, or gave an error: then its `finished` comes without the server.
abbrev pub is_ending : Option Action → Bool
is_ending (some abort) = true
is_ending (some (send key text)) = key == "{download_error}"
is_ending _ = false

module _ (Q : Qt) where
  -- While there is a reply its timer runs, or the reply is ending.
  abbrev pub Armed : Downloads Q → Type 0
  Armed d = d.reply ≡ true → (d.download_timer ≡ true) ⊎ (is_ending (last_action d.trace) ≡ true)

  pub idle-Armed : (d : Downloads Q) → d.reply ≡ false → Armed d
  idle-Armed d r h = absurd (ground (arith, r, h))

module _ (Q : Qt) (st : Station) where
  saved_timer :
      (bytes : String) (d d' : Downloads Q)
      → save_downloaded_file Q st bytes d ≡ some d'
      → d'.download_timer ≡ true
  unfolding save_downloaded_file
  saved_timer bytes d d' e = ground arith

  progressed_timer :
      (cb tb : ℤ) (d d' : Downloads Q)
      → download_progress Q st cb tb d ≡ some d'
      → d'.download_timer ≡ true
  unfolding download_progress
  progressed_timer cb tb d d' e = ground arith

  get_total_size_reply : (id : ℤ) (d : Downloads Q) → (get_total_size Q id d).reply ≡ d.reply
  unfolding get_total_size connect_to_ftp
  get_total_size_reply id d = ground arith

  start_content_reply : (id : ℤ) (d : Downloads Q) → (start_content Q st id d).reply ≡ d.reply
  unfolding start_content add_content
  start_content_reply id d = get_total_size_reply id _

  finish_reply : (d : Downloads Q) → (finish Q st d).reply ≡ d.reply
  unfolding finish
  finish_reply d = refl

  begin_download-Armed :
      (info : ContentInfo) (infos : List ContentInfo) (d : Downloads Q)
      → Armed Q (begin_download Q st info infos d)
  unfolding begin_download
  begin_download-Armed info infos d h = inl refl

  next_download-Armed :
      (id : ℤ) (d d' : Downloads Q)
      → d.reply ≡ false
      → next_download Q st id d ≡ some d'
      → Armed Q d'
  unfolding next_download next_download_of
  next_download-Armed id d d' r e =
      let at = λ (l : List ContentInfo) (h : d.content_files ≡ l).
        sym (ap (λ l. next_download_of Q st id l d) h) ∙ e in
      elim (List-cases d.content_files) [
        | inr (info, infos, n) ↦
            subst (Armed Q) (some_inj (at (info ∷ infos) n)) (begin_download-Armed info infos d)
        | inl n ↦ elim (Bool-cases d.revision) [
          | inl y ↦
              subst (Armed Q) (some_inj (sym (if_true d.revision _ _ y) ∙ at [] n))
                (idle-Armed Q (start_content Q st id d) (start_content_reply id d ∙ r))
          | inr c ↦
              let checked = sym (if_false d.revision _ _ c) ∙ at [] n in
              elim (Option-cases (take_revision Q st d)) [
                | inl f ↦
                    absurd (none_differs (subst (λ o. finished_of Q st o ≡ some d') f checked))
                | inr (d'', f) ↦
                    let (_, same) = take_revision_keeps Q st d d'' f in
                    subst (Armed Q) (some_inj (subst (λ o. finished_of Q st o ≡ some d') f checked))
                      (idle-Armed Q (finish Q st d'') (finish_reply d'' ∙ (same ∙ r)))
              ]
        ]
      ]

  reply_error-Armed : (d : Downloads Q) → Armed Q (reply_error Q st d)
  unfolding reply_error string_eq
  reply_error-Armed d h = inr (
      rw (last_action-append d.trace (send "{download_error}" ("File:" <> d.current.file_name)))
        refl)

  -- A time-out that finds nothing to read aborts the reply, which then is ending.
  pub aborts :
      (bytes : String) (d : Downloads Q)
      → d.reply ≡ true
      → (d' : Downloads Q) × (on_download_timeout Q st bytes false d ≡ some d')
        × (d'.reply ≡ true)
        × (is_ending (last_action d'.trace) ≡ true)
        × (d'.content_files ≡ d.content_files)
        × (d'.revision ≡ d.revision)
  unfolding on_download_timeout
  aborts bytes d r =
      let idle = record d { download_timer = false } in
      let told = emit Q (send "{download_timeout}" ("File:" <> d.current.file_name)) idle in
      let late = record told { download_timed_out = true } in
      (
        emit Q abort late,
        with_reply d.reply _ r,
        r,
        rw (last_action-append told.trace abort) refl,
        refl,
        refl,
      )

  on_download_timeout-Armed :
      (bytes : String) (available : Bool) (d d' : Downloads Q)
      → d.reply ≡ true
      → on_download_timeout Q st bytes available d ≡ some d'
      → Armed Q d'
  unfolding on_download_timeout
  on_download_timeout-Armed bytes available d d' r e h = elim (Bool-cases available) [
    | inl y ↦ inl (
        saved_timer bytes (record d { download_timer = false }) d'
          (sym (if_true available _ _ y) ∙ (sym (with_reply d.reply _ r) ∙ e)))
    | inr n ↦
        let (d'', at, _, ends, _, _) = aborts bytes d r in
        let same = subst (λ b. on_download_timeout Q st bytes b d ≡ some d') n e in
        inr (
          subst (λ (d : Downloads Q). is_ending (last_action d.trace) ≡ true)
            (some_inj (sym at ∙ same)) ends)
  ]

  -- Whatever comes in order leaves it so.
  pub handle-Armed :
      (e : Event) (d d' : Downloads Q)
      → is_started e ≡ false
      → Valid Q d
      → awaits Q d ≡ 1
      → can_come Q e d ≡ true
      → handle Q st e d ≡ some d'
      → Armed Q d'
  unfolding handle
  handle-Armed (started l id) d d' s v o h r = absurd cc
  handle-Armed (listed info) d d' s v o h r =
      idle-Armed Q d' (handle-Leaves Q st (listed info) d d' v o h r).1
  handle-Armed (command_finished f) d d' s v o h r =
      idle-Armed Q d' (handle-Leaves Q st (command_finished f) d d' v o h r)
  handle-Armed ftp_timed_out d d' s v o h r =
      idle-Armed Q d' (ground (arith, handle-Leaves Q st ftp_timed_out d d' v o h r))
  handle-Armed (next id) d d' s v o h r = next_download-Armed id d d' (ground (arith, h)) r
  handle-Armed (ready_read bytes) d d' s v o h r = λ _. inl (saved_timer bytes d d' r)
  handle-Armed (progressed cb tb) d d' s v o h r = λ _. inl (progressed_timer cb tb d d' r)
  handle-Armed failed d d' s v o h r = subst (Armed Q) (some_inj r) (reply_error-Armed d)
  handle-Armed (finished no_error) d d' s v o h r =
      idle-Armed Q d' (ground (arith, handle-Leaves Q st (finished no_error) d d' v o h r))
  handle-Armed (timed_out bytes available) d d' s v o h r =
      on_download_timeout-Armed bytes available d d' (ground (arith, h)) r
