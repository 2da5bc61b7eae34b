-- ===== src/Download/Course/Phase.antt =====
-- The content phase comes to its end: as many transfers as there are files, and then the timer of the
-- next round.
use mediaupdater.Base.{
  ◌≡◌, refl, sym, ap, subst, ◌∙◌, Bool, true, false, not, ◌&&◌, Option, none, some, if◌then◌else◌,
  if_true, List, [], ◌∷◌, ◌++◌, arith, inl, inr, ◌>>=◌,
}
use mediaupdater.Base.Int.{ℤ}
use mediaupdater.Base.Lists.{all, length, List-cases}
use mediaupdater.Heap.Live.{is_live}
use mediaupdater.LoginInfo.{LoginInfo}
use mediaupdater.Qt.{Qt}
use mediaupdater.Station.{Station, rev_local}
use mediaupdater.Content.{ContentInfo}
use mediaupdater.Download.{Downloads, Action, emit, send, start_timer, post_next_download}
use mediaupdater.Download.Phases.{announce, begin_download, next_download, next_download_of, finish}
use mediaupdater.Download.Transfer.{report_progress, download_finished, set_marks}
use mediaupdater.Download.Course.{Event, next, finished, can_come, handle, Valid, posted}
use mediaupdater.Download.Course.Walk.{last_action-append}
use mediaupdater.Download.Course.Reply.{finished_at, download_finished-Returns}
use mediaupdater.Download.Course.Path.{current_path_total, over}
use mediaupdater.Download.Course.Safety.{some_inj, Course, Course-Valid, in_order}
use mediaupdater.Download.Course.Steps.{begin_download-Valid, phase_finishes}

append_three :
    {A : Type 0} (xs : List A) (a b c : A)
    → ((xs ++ (a ∷ [])) ++ (b ∷ [])) ++ (c ∷ []) ≡ xs ++ (a ∷ b ∷ c ∷ [])
append_three [] a b c = refl
append_three (x ∷ xs) a b c = ap (λ l. x ∷ l) (append_three xs a b c)

module _ (Q : Qt) (st : Station) where
  report_progress_keeps :
      (d : Downloads Q)
      → let d' = report_progress Q st d in
        (d'.content_files ≡ d.content_files) × (d'.revision ≡ d.revision) × (d'.reply ≡ d.reply)
  unfolding report_progress
  report_progress_keeps d = (ground arith, ground arith, ground arith)

  pub begin_download_keeps :
      (info : ContentInfo) (infos : List ContentInfo) (d : Downloads Q)
      → (begin_download Q st info infos d).revision ≡ d.revision
  unfolding begin_download announce
  begin_download_keeps info infos d = ground arith

  -- A transfer ends: its file is no longer queued, and the step to the next is posted.
  pub transfer_ends :
      (no_error : Bool) (d : Downloads Q)
      → Valid Q d
      → d.reply ≡ true
      → (d' : Downloads Q) × (download_finished Q st no_error d ≡ some d')
        × Valid Q d'
        × (d'.content_files ≡ d.content_files)
        × (d'.revision ≡ d.revision)
        × (posted Q d' && not d'.reply ≡ true)
  transfer_ends no_error d v r =
      let (m', dir, path, e, _) = current_path_total Q st d v r in
      let done = record (over Q m' d) {
        download_timer = false;
        world = set_marks Q st (Q.exists path d.world) no_error d d.world;
        reply = false;
      } in
      let told = report_progress Q st done in
      let (files, phase, no_reply) = report_progress_keeps done in
      let eq = finished_at Q st d (over Q m' d) dir path no_error e r in
      let (d', eq', v') = download_finished-Returns Q st d v r no_error in
      let same : emit Q post_next_download told ≡ d' = some_inj (sym eq ∙ eq') in
      let last = last_action-append told.trace post_next_download in
      (
        emit Q post_next_download told,
        eq,
        subst (Valid Q) (sym same) v',
        files,
        phase,
        ground (arith, last, no_reply),
      )

  abbrev pub Posted : Downloads Q → Type 0
  Posted d = posted Q d && not d.reply ≡ true

  -- An event comes, and its slot is called: only where it is due, so that no step is taken that was
  -- not posted, and no reply finishes that there is not.
  abbrev pub arrives : Event → Downloads Q → Option (Downloads Q)
  arrives e d = if can_come Q e d then handle Q st e d else none

  -- One file: the posted step begins its download, and its reply finishes.
  abbrev pub round : ℤ → Bool → Downloads Q → Option (Downloads Q)
  round id no_error d = arrives (next id) d >>= (λ d'. arrives (finished no_error) d')

  pub steps_on :
      (id : ℤ) (d : Downloads Q) (o : Option (Downloads Q))
      → Posted d
      → next_download Q st id d ≡ o
      → arrives (next id) d ≡ o
  unfolding handle
  steps_on id d o p eq = if_true (posted Q d && not d.reply) _ _ p ∙ eq

  ends_on :
      (no_error : Bool) (d : Downloads Q) (o : Option (Downloads Q))
      → d.reply ≡ true
      → download_finished Q st no_error d ≡ o
      → arrives (finished no_error) d ≡ o
  unfolding handle
  ends_on no_error d o r eq = if_true d.reply _ _ r ∙ eq

  abbrev pub rounds : ℤ → List Bool → Downloads Q → Option (Downloads Q)
  rounds id [] d = some d
  rounds id (ok ∷ oks) d = round id ok d >>= (λ d'. rounds id oks d')

  round_ends :
      (id : ℤ) (no_error : Bool) (info : ContentInfo) (infos : List ContentInfo) (d : Downloads Q)
      → Valid Q d
      → Posted d
      → d.content_files ≡ info ∷ infos
      → (d' : Downloads Q) × (round id no_error d ≡ some d')
        × Valid Q d'
        × (d'.content_files ≡ infos)
        × (d'.revision ≡ d.revision)
        × Posted d'
  unfolding next_download begin_download
  round_ends id no_error info infos d v p e =
      let on = begin_download Q st info infos d in
      let good =
        begin_download-Valid Q st info infos d v.sound
          (subst (λ l. all (is_live d.manager.content_map) l ≡ true) e (v.queued (ground arith))) in
      let (d', eq, v', files, phase, p') = transfer_ends no_error on good refl in
      let begun : next_download Q st id d ≡ some on = ap (λ l. next_download_of Q st id l d) e in
      (
        d',
        subst (λ o. (o >>= (λ d'. arrives (finished no_error) d')) ≡ some d')
            (sym (steps_on id d (some on) p begun)) (ends_on no_error on (some d') refl eq),
        v',
        files,
        phase ∙ begin_download_keeps info infos d,
        p',
      )

  -- As many rounds as files are queued, whatever their replies end with, leave none.
  pub rounds_end :
      (id : ℤ) (oks : List Bool) (d : Downloads Q)
      → Valid Q d
      → Posted d
      → length oks ≡ length d.content_files
      → (d' : Downloads Q) × (rounds id oks d ≡ some d')
        × Valid Q d'
        × (d'.content_files ≡ [])
        × (d'.revision ≡ d.revision)
        × Posted d'
  rounds_end id [] d v p n = elim (List-cases d.content_files) [
    | inl e ↦ (d, refl, v, e, refl, p)
    | inr (info, infos, e) ↦ absurd (omega (arith, ap length e))
  ]
  rounds_end id (ok ∷ oks) d v p n = elim (List-cases d.content_files) [
    | inl e ↦ absurd (omega (arith, ap length e))
    | inr (info, infos, e) ↦
        (let (d', eq, v', files, phase, p') = round_ends id ok info infos d v p e in
          let (d'', eq', v'', none_left, phase', p'') =
            rounds_end id oks d' v' p' (omega (arith, ap length e, ap length files)) in
          (
            d'',
            subst (λ o. (o >>= (λ d'. rounds id oks d')) ≡ some d'') (sym eq) eq',
            v'',
            none_left,
            phase' ∙ phase,
            p'',
          ))
  ]

  -- The events that the end of a content phase sends, after the local contents were synchronised.
  abbrev pub closing : LoginInfo → Q.World → List Action
  closing l w =
      start_timer
      ∷ send "{update_success}" "Обновление файлов завершено"
      ∷ send "{revision}" (Q.number (rev_local Q st l.box_id w))
      ∷ []

  finish_closes :
      (d : Downloads Q)
      → (before : List Action) × ((finish Q st d).trace
          ≡ before ++ closing d.login_info (finish Q st d).world)
  unfolding finish
  finish_closes d =
      let finished = emit Q (send "{update_finished}" "Загрузка файлов завершена") d in
      (finished.trace, append_three finished.trace _ _ _)

  -- In the content phase, with the step to the next download posted, after a course in order: for as many times as files are
  -- queued the posted step comes and begins a transfer, and its reply finishes, whatever it ends with,
  -- which posts a step again; the step that is posted then comes too, and ends the phase. It starts the
  -- timer of the next round and sends the revision that is kept then.
  pub content_phase_ends :
      (id : ℤ) (oks : List Bool) (d : Downloads Q) (c : Course Q st d)
      → in_order Q st c ≡ true
      → Posted d
      → d.revision ≡ false
      → length oks ≡ length d.content_files
      → (d' : Downloads Q) × (d'' : Downloads Q) × (rounds id oks d ≡ some d')
        × (arrives (next id) d' ≡ some d'')
        × (before : List Action) × (d''.trace ≡ before ++ closing d''.login_info d''.world)
  unfolding finish
  content_phase_ends id oks d c ordered p r n =
      let (d', eq, v, files, phase, p') = rounds_end id oks d (Course-Valid Q st c ordered) p n in
      let (last, at, _, _) = phase_finishes Q st id d' v.sound files (phase ∙ r) in
      let (before, closed) = finish_closes last in
      (d', finish Q st last, eq, steps_on id d' (some (finish Q st last)) p' at, before, closed)
