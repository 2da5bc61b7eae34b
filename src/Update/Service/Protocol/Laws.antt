-- ===== src/Update/Service/Protocol/Laws.antt =====
-- The steps of the service against its protocol.
use mediaupdater.Base.{
  ℕ, ◌≡◌, refl, ap, sym, subst, ◌∙◌, Bool, true, false, not, ◌&&◌, none, some, arith, inl, inr,
  Bool-cases, if_both,
}
use mediaupdater.Base.Int.{ℤ, pos, ltb_ℤ}
use mediaupdater.Qt.{Qt}
use mediaupdater.Station.{Station}
use mediaupdater.Account.{Codec, AccountError, Reply, is_no_error, reply_finished, request_timeout}
use mediaupdater.Download.{Downloads, set_login_info, check_connection_settings}
use mediaupdater.Download.Course.{Event, can_come}
use mediaupdater.Download.Course.Await.{count}
use mediaupdater.Download.Course.Turn.{is_started}
use mediaupdater.Download.Course.Mode.{handle-Leaves}
use mediaupdater.Download.Course.Safety.{some_inj, handle-Returns}
use mediaupdater.LoginInfo.{LoginInfo}
use mediaupdater.Download.Ftp.{get_total_size, connect_to_ftp}
use mediaupdater.Download.Phases.{add_content}
use mediaupdater.Download.Phases
use mediaupdater.Update.{Controller, account_manager_ready, launch, login_of}
use mediaupdater.Update
use mediaupdater.Update.Service.{
  with_machine, Occurrence, fired, answered, account_late, delivered, came, Service, can_happen,
  notice, take, Run, in_order, came_late, is_late,
}
use mediaupdater.Update.Service.Sound.{
  start_asks, something_comes, both, Sound, taken_of, uncounted,
}
use mediaupdater.Update.Service.Late.{late, late_timer, late-Sound}
use mediaupdater.Update.Service.Laws.{take-Sound}
use mediaupdater.Update.Service.Runs.{Run-Sound}
use mediaupdater.Update.Service.Protocol.{
  answering, leads, phase_of, works, waiting_phase, idle_phase, Phase, waiting, asking, walking,
  stepping, downloading,
}
use mediaupdater.Update.Service.Protocol.Signals.{signal_follows}

-- An answer that is late leads nowhere.
stays : (e : Event) (p : Phase) → leads (came_late e) p p ≡ true
stays e waiting = refl
stays e asking = refl
stays e answering = refl
stays e walking = refl
stays e stepping = refl
stays e downloading = refl

module _ (Q : Qt) (st : Station) where
  start_reply :
      (l : LoginInfo) (id : ℤ) (d : Downloads Q)
      → (Phases.start Q st id (set_login_info Q l d)).reply ≡ d.reply
  unfolding Phases.start set_login_info check_connection_settings get_total_size connect_to_ftp
      add_content
  start_reply l id d = ground arith

module _ (Q : Qt) (st : Station) (C : Codec) where
  pub account_manager_ready_reply :
      (login_id : ℤ) (address : ℕ) (c : Controller Q st C)
      → (account_manager_ready Q st C login_id address c).downloads.reply ≡ c.downloads.reply
  unfolding account_manager_ready launch Update.start_timer
  account_manager_ready_reply login_id address c =
      let l = login_of Q st C c.account c.downloads.world in
      if_both (λ (c' : Controller Q st C). c'.downloads.reply ≡ c.downloads.reply)
        (not (is_no_error Q C c.account.error)) _ _ refl
        (if_both (λ (c' : Controller Q st C). c'.downloads.reply ≡ c.downloads.reply)
          (ltb_ℤ (Q.parse_int l.box_id) (pos 1)) (Update.start_timer Q st C c)
          (launch Q st C login_id address l c) refl (start_reply Q st l login_id c.downloads))

  -- What an occurrence makes of a state, where it is what the state waits for.
  Follows : Occurrence → Service Q st C → Type 0
  Follows o s =
      (s' : Service Q st C) × (take Q st C o s ≡ some s')
      × (leads o (phase_of Q st C s) (phase_of Q st C s') ≡ true)

  fired-Follows :
      (unset : AccountError) (s : Service Q st C)
      → Sound Q st C s
      → s.controller.timer ≡ true
      → Follows (fired unset) s
  unfolding Follows take
  fired-Follows unset s g t =
      let c = s.controller in
      let timed = record c { timer = false } in
      let (c', sent) = Update.start Q st C unset timed in
      let asks = elim sent as (λ x. Bool) [ none ↦ false | some _ ↦ true ] in
      let s' = record s { controller = c'; asked = asks } in
      let (one, _) = start_asks Q st C unset timed refl in
      (
        s',
        refl,
        rw (waiting_phase Q st C s t) (elim (Bool-cases c'.timer) [
          | inl y ↦ rw (waiting_phase Q st C s' y) refl
          | inr n ↦
              let a : asks ≡ true = elim (Bool-cases asks) [
                | inl a ↦ a
                | inr a ↦ absurd (omega (arith, one, ap count n, ap count a))
              ] in
              rw (n, a) refl
        ]),
      )

  answered-Follows :
      (r : Reply) (s : Service Q st C) → Sound Q st C s → s.asked ≡ true → Follows (answered r) s
  unfolding Follows take
  answered-Follows r s g a =
      let c = s.controller in
      let (a', w) = reply_finished Q C r (c.account, c.downloads.world) in
      let t = uncounted c.timer (omega (arith, g.one, ap count a)) in
      (
        record s {
          controller = with_machine Q st C w (record c { account = a' });
          asked = false;
          ready = true;
        },
        refl,
        rw (t, a) refl,
      )

  account_late-Follows :
      (s : Service Q st C) → Sound Q st C s → s.asked ≡ true → Follows account_late s
  unfolding Follows take
  account_late-Follows s g a =
      let c = s.controller in
      let t = uncounted c.timer (omega (arith, g.one, ap count a)) in
      (
        record s { controller = record c { account = (request_timeout Q C c.account).0 } },
        refl,
        rw (t, a) refl,
      )

  delivered-Follows :
      (login_id : ℤ) (address : ℕ) (s : Service Q st C)
      → Sound Q st C s
      → s.ready ≡ true
      → Follows (delivered login_id address) s
  unfolding Follows take notice
  delivered-Follows login_id address s g q =
      let c = s.controller in
      let t = uncounted c.timer (omega (arith, g.one, ap count q)) in
      let a = uncounted s.asked (omega (arith, g.one, ap count q)) in
      let r = uncounted c.downloads.reply (omega (arith, g.one, ap count q)) in
      let c' = account_manager_ready Q st C login_id address c in
      let s' = record s { controller = notice Q st C c.downloads.trace c'; ready = false } in
      let at : phase_of Q st C s ≡ answering = rw (t, a, q) refl in
      (
        s',
        refl,
        elim (idle_phase Q st C s' a refl (account_manager_ready_reply login_id address c ∙ r)) [
          | inl at' ↦ rw (at, at') refl
          | inr (inl at') ↦ rw (at, at') refl
          | inr (inr at') ↦ rw (at, at') refl
        ],
      )

  came-Follows :
      (e : Event) (s : Service Q st C)
      → Sound Q st C s
      → not (is_started e) && can_come Q e s.controller.downloads ≡ true
      → Follows (came e) s
  unfolding Follows take notice
  came-Follows e s g h =
      let c = s.controller in
      let d = c.downloads in
      let (mine, now) = both (not (is_started e)) (can_come Q e d) h in
      let (o, _) = something_comes Q st C e d mine now _ g.one in
      let (d', r, v) = handle-Returns Q st e d g.valid now in
      let s' = record s { controller = notice Q st C d.trace (record c { downloads = d' }) } in
      let (s'', r', g'') = take-Sound Q st C (came e) s g h in
      let at : take Q st C (came e) s ≡ some s' = ap (taken_of Q st C s) r in
      let (_, a, q) = works Q st C s g o in
      (
        s',
        at,
        signal_follows Q st C e s s' g (subst (Sound Q st C) (some_inj (sym r' ∙ at)) g'') mine now
            o a q (handle-Leaves Q st e d d' g.valid o now r),
      )

  came_late-Follows :
      (e : Event) (s : Service Q st C)
      → Sound Q st C s
      → is_late Q e s.controller.downloads ≡ true
      → Follows (came_late e) s
  unfolding Follows notice
  came_late-Follows e s g h =
      let (at, _) = late-Sound Q st C e s g h in
      let same : phase_of Q st C (late Q st C e s) ≡ phase_of Q st C s =
        rw (late_timer Q st C e s) refl in
      (late Q st C e s, at, rw same (stays e (phase_of Q st C s)))

  follows :
      (o : Occurrence) (s : Service Q st C)
      → Sound Q st C s
      → can_happen Q st C o s ≡ true
      → Follows o s
  follows (fired unset) s g h = fired-Follows unset s g h
  follows (answered r) s g h = answered-Follows r s g h
  follows account_late s g h =
      account_late-Follows s g (both s.asked s.controller.account.reply h).0
  follows (delivered login_id address) s g h = delivered-Follows login_id address s g h
  follows (came e) s g h = came-Follows e s g h
  follows (came_late e) s g h = came_late-Follows e s g h

  -- After any run of the service from its making on, in which the server answers each question once:
  -- whatever can happen in that order is taken, and takes the service from its phase to one that the
  -- occurrence leads to from there, as `leads` lists them.
  pub take-leads :
      {s : Service Q st C} (o : Occurrence) (g : Run Q st C s)
      → in_order Q st C g ≡ true
      → can_happen Q st C o s ≡ true
      → (s' : Service Q st C) × (take Q st C o s ≡ some s')
        × (leads o (phase_of Q st C s) (phase_of Q st C s') ≡ true)
  unfolding Follows
  take-leads {s} o g i h = follows o s (Run-Sound Q st C g i) h
