-- ===== src/Update/Service/Silence.antt =====
-- The service where no server ever answers.
pub mod Timer
pub mod Rounds
use mediaupdater.Base.{
  ℕ, ◌≡◌, refl, sym, subst, ◌∙◌, ap, ◌⊎◌, inl, inr, true, false, not, ◌&&◌, some, List, [], ◌∷◌,
  arith, Bool-cases, if_true,
}
use mediaupdater.Base.Int.{ℤ}
use mediaupdater.Qt.{Qt}
use mediaupdater.Station.{Station, rev_local}
use mediaupdater.Content.{ContentInfo}
use mediaupdater.Manager
use mediaupdater.Account.{Codec}
use mediaupdater.Download.{Downloads, emit, send, start_timer}
use mediaupdater.Download.Ftp.{on_ftp_timeout, get_total_size, connect_to_ftp}
use mediaupdater.Download.Phases.{
  start_content, next_download, next_download_of, begin_download, finish,
}
use mediaupdater.Download.Course.{
  Event, ftp_timed_out, next, finished, can_come, handle, walks, posted,
}
use mediaupdater.Download.Course.Walk.{last_action-append}
use mediaupdater.Download.Course.Await.{count, awaits}
use mediaupdater.Download.Course.Mode.{on_ftp_timeout_rests}
use mediaupdater.Download.Course.Turn.{is_started}
use mediaupdater.Download.Course.Safety.{some_inj}
use mediaupdater.Download.Course.Steps.{phase_finishes}
use mediaupdater.Download.Course.Phase.{transfer_ends, Posted}
use mediaupdater.Download.Course.Round.{get_total_size-revision}
use mediaupdater.Update.Service.{
  Occurrence, answered, delivered, came, Service, can_happen, notice, take, is_silent, Silently,
  at_rest, then_silently, Run, then_came,
}
use mediaupdater.Update.Service.Sound.{Sound, taken_of, uncounted, both, denied, something_comes}
use mediaupdater.Download.Course.Armed.{Armed, handle-Armed}
use mediaupdater.Update.Service.Laws.{take-Sound}
use mediaupdater.Update.Service.Runs.{Run-Sound}

module _ (Q : Qt) where
  get_total_size_keeps :
      (id : ℤ) (d : Downloads Q) → (get_total_size Q id d).content_files ≡ d.content_files
  unfolding get_total_size connect_to_ftp
  get_total_size_keeps id d = ground arith

module _ (Q : Qt) (st : Station) where
  pub begin_download_takes :
      (info : ContentInfo) (infos : List ContentInfo) (d : Downloads Q)
      → let d' = begin_download Q st info infos d in (d'.reply ≡ true) × (d'.content_files ≡ infos)
  unfolding begin_download
  begin_download_takes info infos d = (refl, refl)

  finish_rests : (d : Downloads Q) → d.reply ≡ false → awaits Q (finish Q st d) ≡ 0
  unfolding finish
  finish_rests d r =
      let told = emit Q (send "{update_finished}" "Загрузка файлов завершена") d in
      let (m, w) = Manager.sync_content Q st (told.manager, told.world) in
      let waiting = emit Q start_timer (record told { manager = m; world = w }) in
      let ended = emit Q (send "{update_success}" "Обновление файлов завершено") waiting in
      rw
        (
          last_action-append ended.trace
              (send "{revision}" (Q.number (rev_local Q st d.login_info.box_id w))),
          r,
        )
        refl

  pub start_content_empty :
      (id : ℤ) (d : Downloads Q)
      → let d' = start_content Q st id d in (d'.content_files ≡ []) × (d'.revision ≡ false)
  unfolding start_content
  start_content_empty id d = (get_total_size_keeps Q id _, get_total_size-revision Q id _)

module _ (Q : Qt) (st : Station) (C : Codec) where
  -- Nothing of the account is awaited, and the timer of a reply runs.
  abbrev pub Settled : Service Q st C → Type 0
  Settled s =
      Sound Q st C s × (s.asked ≡ false) × (s.ready ≡ false) × Armed Q s.controller.downloads

  abbrev pub ComesBack : Service Q st C → Type 0
  ComesBack s = (s' : Service Q st C) × Silently Q st C s s' × (s'.controller.timer ≡ true)

  pub comes_on :
      {s s' : Service Q st C} (o : Occurrence)
      → is_silent Q st C o s ≡ true
      → can_happen Q st C o s ≡ true
      → take Q st C o s ≡ some s'
      → ComesBack s'
      → ComesBack s
  comes_on o q h r (s'', after, t) = (s'', then_silently o q h r after, t)

  -- With nothing else to wait for, the timer runs.
  rests-ComesBack :
      (s : Service Q st C) → Settled s → awaits Q s.controller.downloads ≡ 0 → ComesBack s
  rests-ComesBack s (g, a, q, m) o = elim (Bool-cases s.controller.timer) [
    | inl t ↦ (s, at_rest, t)
    | inr n ↦ absurd (omega (arith, g.one, o, ap count a, ap count q, ap count n))
  ]

  -- Where the handler returns, the service goes on with its state.
  pub took :
      (e : Event) (s : Service Q st C) (d : Downloads Q)
      → Settled s
      → not (is_started e) && can_come Q e s.controller.downloads ≡ true
      → handle Q st e s.controller.downloads ≡ some d
      → (s' : Service Q st C) × (take Q st C (came e) s ≡ some s')
        × Settled s'
        × (s'.controller.downloads ≡ d)
  unfolding take notice
  took e s d (g, a, q, m) h r =
      let c = s.controller in
      let (mine, now) = both (not (is_started e)) (can_come Q e c.downloads) h in
      let (o, _) = something_comes Q st C e c.downloads mine now _ g.one in
      let s' = record s {
        controller = notice Q st C c.downloads.trace (record c { downloads = d });
      } in
      let (s'', r', g') = take-Sound Q st C (came e) s g h in
      let at : take Q st C (came e) s ≡ some s' = ap (taken_of Q st C s) r in
      (
        s',
        at,
        (
          subst (Sound Q st C) (some_inj (sym r' ∙ at)) g',
          a,
          q,
          handle-Armed Q st e c.downloads d (denied (is_started e) mine) g.valid o now r,
        ),
        refl,
      )

  -- A silent server.
  pub walks-ComesBack :
      (s : Service Q st C) → Settled s → walks Q s.controller.downloads ≡ true → ComesBack s
  unfolding handle
  walks-ComesBack s (g, a, q, m) w =
      let d = s.controller.downloads in
      let (runs, _) = g.watched w in
      let h : not (is_started ftp_timed_out) && can_come Q ftp_timed_out d ≡ true =
        ground (arith, w, runs) in
      let idle : d.reply ≡ false = ground (arith, w, g.one) in
      let (s', r, on, same) = took ftp_timed_out s (on_ftp_timeout Q d) (g, a, q, m) h refl in
      comes_on (came ftp_timed_out) refl h r
        (rests-ComesBack s' on (ap (λ d. awaits Q d) same ∙ on_ftp_timeout_rests Q d idle))

  -- The content phase with nothing to download.
  pub ended-ComesBack :
      (id : ℤ) (s : Service Q st C)
      → Settled s
      → Posted Q st s.controller.downloads
      → s.controller.downloads.content_files ≡ []
      → s.controller.downloads.revision ≡ false
      → ComesBack s
  unfolding handle
  ended-ComesBack id s (g, a, q, m) p n c =
      let d = s.controller.downloads in
      let (d', at, _, same) = phase_finishes Q st id d g.valid.sound n c in
      let idle : d.reply ≡ false = ground (arith, p) in
      let (s', r, on, is) = took (next id) s (finish Q st d') (g, a, q, m) p at in
      comes_on (came (next id)) refl p r
        (rests-ComesBack s' on (ap (λ d. awaits Q d) is ∙ finish_rests Q st d' (same ∙ idle)))

  -- What is awaited of the download manager.
  pub awaited-cases :
      (s : Service Q st C)
      → Settled s
      → (s.controller.timer ≡ true)
        ⊎ ((walks Q s.controller.downloads ≡ true)
            ⊎ (Posted Q st s.controller.downloads ⊎ (s.controller.downloads.reply ≡ true)))
  awaited-cases s (g, a, q, m) =
      let d = s.controller.downloads in
      elim (Bool-cases s.controller.timer) [
        | inl y ↦ inl y
        | inr t ↦ elim (Bool-cases d.reply) [
          | inl y ↦ inr (inr (inr y))
          | inr f ↦ elim (Bool-cases (walks Q d)) [
            | inl y ↦ inr (inl y)
            | inr w ↦ elim (Bool-cases (posted Q d)) [
              | inl y ↦ inr (inr (inl (ground (arith, y, f))))
              | inr p ↦ absurd (
                  omega (
                    arith,
                    g.one,
                    ap count t,
                    ap count a,
                    ap count q,
                    ap count f,
                    ap count w,
                    ap count p,
                  ))
            ]
          ]
        ]
      ]
