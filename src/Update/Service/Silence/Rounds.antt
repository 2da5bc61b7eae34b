-- ===== src/Update/Service/Silence/Rounds.antt =====
-- The rounds of a service that no server answers.
use mediaupdater.Base.{
  ℕ, ◌≡◌, refl, sym, subst, ◌∙◌, ap, inl, inr, true, false, some, List, [], ◌∷◌, arith, Bool-cases,
  ◌&&◌, if_true,
}
use mediaupdater.Base.Int.{ℤ}
use mediaupdater.Qt.{Qt}
use mediaupdater.Station.{Station}
use mediaupdater.Content.{ContentInfo}
use mediaupdater.Account.{Codec}
use mediaupdater.Download.{Downloads}
use mediaupdater.Download.Phases.{start_content, next_download, next_download_of, begin_download}
use mediaupdater.Download.Course.{next, finished, timed_out, last_action, handle}
use mediaupdater.Download.Course.Armed.{Armed, is_ending, aborts}
use mediaupdater.Update.Service.Silence.Timer.{take-Armed, Run-Armed}
use mediaupdater.Download.Course.Await.{count}
use mediaupdater.Download.Course.Safety.{some_inj}
use mediaupdater.Download.Course.Phase.{transfer_ends, Posted}
use mediaupdater.Update.Service.{
  answered, delivered, came, Service, take, Silently, at_rest, then_silently, Run, in_order,
  can_may_happen, then_came,
}
use mediaupdater.Update.Service.Sound.{Sound, uncounted}
use mediaupdater.Update.Service.Laws.{take-Sound}
use mediaupdater.Update.Service.Runs.{Run-Sound}
use mediaupdater.Update.Service.Silence.{
  begin_download_takes, start_content_empty, Settled, ComesBack, comes_on, took, walks-ComesBack,
  ended-ComesBack, awaited-cases,
}

module _ (Q : Qt) (st : Station) (C : Codec) where
  -- A reply that is ending leaves the next step posted.
  ending-ComesBack :
      (s : Service Q st C)
      → Settled Q st C s
      → s.controller.downloads.reply ≡ true
      → is_ending (last_action s.controller.downloads.trace) ≡ true
      → ((s' : Service Q st C)
          → Settled Q st C s'
          → Posted Q st s'.controller.downloads
          → s'.controller.downloads.content_files ≡ s.controller.downloads.content_files
          → s'.controller.downloads.revision ≡ s.controller.downloads.revision
          → ComesBack Q st C s')
      → ComesBack Q st C s
  unfolding handle
  ending-ComesBack s (g, a, q, m) t x on =
      let d = s.controller.downloads in
      let (d', r, _, files, phase, p) = transfer_ends Q st false d g.valid t in
      let (s', r', settled, same) = took Q st C (finished false) s d' (g, a, q, m) t r in
      comes_on Q st C (came (finished false)) x t r' (
        on s' settled (subst (Posted Q st) (sym same) p)
          (ap (λ (d : Downloads Q). d.content_files) same ∙ files)
          (ap (λ (d : Downloads Q). d.revision) same ∙ phase))

  -- A transfer that the server does not answer is timed out, where its reply is not ending already.
  transfer-ComesBack :
      (s : Service Q st C)
      → Settled Q st C s
      → s.controller.downloads.reply ≡ true
      → ((s' : Service Q st C)
          → Settled Q st C s'
          → Posted Q st s'.controller.downloads
          → s'.controller.downloads.content_files ≡ s.controller.downloads.content_files
          → s'.controller.downloads.revision ≡ s.controller.downloads.revision
          → ComesBack Q st C s')
      → ComesBack Q st C s
  unfolding handle
  transfer-ComesBack s (g, a, q, m) t on = elim (m t) [
    | inr x ↦ ending-ComesBack s (g, a, q, m) t x on
    | inl runs ↦
        let d = s.controller.downloads in
        let (d', r, t', x, files, phase) = aborts Q st "" d t in
        let h : d.reply && d.download_timer ≡ true = ground (arith, t, runs) in
        let (s', r', settled, same) = took Q st C (timed_out "" false) s d' (g, a, q, m) h r in
        comes_on Q st C (came (timed_out "" false)) refl h r' (
          ending-ComesBack s' settled (ap (λ (d : Downloads Q). d.reply) same ∙ t')
            (ap (λ (d : Downloads Q). is_ending (last_action d.trace)) same ∙ x)
            (λ s'' on' p f e.
              on s'' on' p (f ∙ (ap (λ (d : Downloads Q). d.content_files) same ∙ files))
                (e ∙ (ap (λ (d : Downloads Q). d.revision) same ∙ phase))))
  ]

  -- As many transfers as files are queued, and then the end of the phase.
  drained-ComesBack :
      (id : ℤ) (files : List ContentInfo) (s : Service Q st C)
      → Settled Q st C s
      → Posted Q st s.controller.downloads
      → s.controller.downloads.content_files ≡ files
      → ComesBack Q st C s
  unfolding handle next_download
  drained-ComesBack id (info ∷ infos) s g p n =
      let d = s.controller.downloads in
      let begun : next_download Q st id d ≡ some (begin_download Q st info infos d) =
        ap (λ l. next_download_of Q st id l d) n in
      let (s', r, on, same) =
        took Q st C (next id) s (begin_download Q st info infos d) g p begun in
      let (reply, files) = begin_download_takes Q st info infos d in
      comes_on Q st C (came (next id)) refl p r (
        transfer-ComesBack s' on (ap (λ (d : Downloads Q). d.reply) same ∙ reply)
          (λ s'' on' p' n' _.
            drained-ComesBack id infos s'' on' p'
              (n' ∙ ap (λ (d : Downloads Q). d.content_files) same ∙ files)))
  drained-ComesBack id [] s g p n =
      let d = s.controller.downloads in
      elim (Bool-cases d.revision) [
        | inr c ↦ ended-ComesBack Q st C id s g p n c
        | inl y ↦
            let begun : next_download Q st id d ≡ some (start_content Q st id d) =
              ap (λ l. next_download_of Q st id l d) n ∙ if_true d.revision _ _ y in
            let (s', r, on, same) = took Q st C (next id) s (start_content Q st id d) g p begun in
            let (files, phase) = start_content_empty Q st id d in
            let n' = ap (λ (d : Downloads Q). d.content_files) same ∙ files in
            let c = ap (λ (d : Downloads Q). d.revision) same ∙ phase in
            comes_on Q st C (came (next id)) refl p r (elim (awaited-cases Q st C s' on) [
              | inl t ↦ (s', at_rest, t)
              | inr (inl w) ↦ walks-ComesBack Q st C s' on w
              | inr (inr (inl p')) ↦ ended-ComesBack Q st C id s' on p' n' c
              | inr (inr (inr t)) ↦
                  transfer-ComesBack s' on t
                    (λ s'' on' p' e f. ended-ComesBack Q st C id s'' on' p' (e ∙ n') (f ∙ c))
            ])
      ]

  quiet-ComesBack : (id : ℤ) (s : Service Q st C) → Settled Q st C s → ComesBack Q st C s
  quiet-ComesBack id s g = elim (awaited-cases Q st C s g) [
    | inl t ↦ (s, at_rest, t)
    | inr (inl w) ↦ walks-ComesBack Q st C s g w
    | inr (inr (inl p)) ↦ drained-ComesBack id _ s g p refl
    | inr (inr (inr t)) ↦
        transfer-ComesBack s g t (λ s' on p _ _. drained-ComesBack id _ s' on p refl)
  ]

  -- The queued answer of the account is delivered, and what follows comes to its end.
  ready-ComesBack :
      (id : ℤ) (address : ℕ) (s : Service Q st C)
      → Sound Q st C s
      → Armed Q s.controller.downloads
      → s.ready ≡ true
      → ComesBack Q st C s
  unfolding take
  ready-ComesBack id address s g m q =
      let (s', r, g') = take-Sound Q st C (delivered id address) s g q in
      let gone : s.asked ≡ false = uncounted s.asked (omega (arith, g.one, ap count q)) in
      comes_on Q st C (delivered id address) refl q r (
        quiet-ComesBack id s' (
          g',
          sym (ap (λ (s : Service Q st C). s.asked) (some_inj r)) ∙ gone,
          sym (ap (λ (s : Service Q st C). s.ready) (some_inj r)),
          take-Armed Q st C (delivered id address) s s' g q r m,
        ))

  Sound-ComesBack :
      (id : ℤ) (address : ℕ) (s : Service Q st C)
      → Sound Q st C s
      → Armed Q s.controller.downloads
      → ComesBack Q st C s
  unfolding take
  Sound-ComesBack id address s g m = elim (Bool-cases s.ready) [
    | inl q ↦ ready-ComesBack id address s g m q
    | inr n ↦ elim (Bool-cases s.asked) [
      | inr a ↦ quiet-ComesBack id s (g, a, n, m)
      | inl a ↦
          let lost = answered (record { no_error = false; error_string = ""; bytes = "" }) in
          let (s', r, g') = take-Sound Q st C lost s g a in
          comes_on Q st C lost refl a r (
            ready-ComesBack id address s' g' (take-Armed Q st C lost s s' g a r m)
              (sym (ap (λ (s : Service Q st C). s.ready) (some_inj r))))
    ]
  ]

  abbrev InOrder : Service Q st C → Type 0
  InOrder s = (g : Run Q st C s) × (in_order Q st C g ≡ true)

  then_run : {s s' : Service Q st C} → InOrder s → Silently Q st C s s' → InOrder s'
  then_run g at_rest = g
  then_run (g, i) (then_silently {s} o _ h r after) =
      then_run (then_came o g (can_may_happen Q st C o s h) r, ground (arith, i, h)) after

  -- After any run of the service from its making on, in which the server answers each question once:
  -- where from then on no server ever answers, it can come back to its timer, by nothing but what the
  -- machine itself signals then. The reply of the account is missing, the timer of the FTP server runs
  -- out, and that of each download, whose reply it aborts, until the timer runs that starts the next
  -- round.
  pub comes_back :
      (id : ℤ) (address : ℕ) {s : Service Q st C} (g : Run Q st C s)
      → in_order Q st C g ≡ true
      → (s' : Service Q st C) × Silently Q st C s s' × InOrder s' × (s'.controller.timer ≡ true)
  comes_back id address {s} g i =
      let (s', after, t) =
        Sound-ComesBack id address s (Run-Sound Q st C g i) (Run-Armed Q st C g i) in
      (s', after, then_run (g, i) after, t)
