-- ===== src/Update/Program/Laws.antt =====
-- The program over any sequence of starts and stops, with what comes to the service between them.
use mediaupdater.Base.{◌≡◌, refl, ap, sym, subst, ◌∙◌, Option, none, some, true, false, arith}
use mediaupdater.Qt.{Qt}
use mediaupdater.Station.{Station}
use mediaupdater.Account.{Codec}
use mediaupdater.Download.Course.Safety.{some_inj, ordered}
use mediaupdater.Update.Service.{Occurrence, Service, can_happen, can_may_happen, take, Run, made}
use mediaupdater.Update.Service
use mediaupdater.Update.Service.Sound.{awaited}
use mediaupdater.Update.Service.Runs.{waits_for_one, takes_what_happens}
use mediaupdater.Update.Program.{
  Program, world_of, start, stop, Call, starts, stops, happens, call, MayHappen, is_due, Sessions,
  in_order, booted, then_called,
}

module _ (Q : Qt) (st : Station) (C : Codec) where
  -- The controller that there is, if any, is in a state of a run from its making on.
  abbrev Runs : Option (Service Q st C) → Type 0
  Runs none = Unit
  Runs (some s) = (g : Run Q st C s) × (Service.in_order Q st C g ≡ true)

  abbrev pub WaitsForOne : Option (Service Q st C) → Type 0
  WaitsForOne none = Unit
  WaitsForOne (some s) = awaited Q st C s ≡ 1

  abbrev happened : Program Q st C → Option (Service Q st C) → Option (Program Q st C)
  happened p o = elim o [ none ↦ none | some s ↦ some (record p { update_controller = some s }) ]

  abbrev happened_to :
      Occurrence → Program Q st C → Option (Service Q st C) → Option (Program Q st C)
  happened_to o p t = elim t [ none ↦ none | some s ↦ happened p (take Q st C o s) ]

  -- What is due comes to a controller that there is.
  happens_to :
      (o : Occurrence) (t : Option (Service Q st C))
      → (elim t [ none ↦ false | some s ↦ can_happen Q st C o s ]) ≡ true
      → (s : Service Q st C) × (t ≡ some s) × (can_happen Q st C o s ≡ true)
  happens_to o none h = absurd cc
  happens_to o (some s) h = (s, refl, h)

  due-MayHappen :
      (c : Call Q st C) (p : Program Q st C) → is_due Q st C c p ≡ true → MayHappen Q st C c p
  due-MayHappen (starts no_account unset_port unset_id unset_number) p h = tt
  due-MayHappen stops p h = tt
  due-MayHappen (happens o) p h =
      let (s, e, now) = happens_to o p.update_controller h in (s, e, can_may_happen Q st C o s now)

  call-Runs :
      (c : Call Q st C) (p : Program Q st C)
      → Runs p.update_controller
      → is_due Q st C c p ≡ true
      → (p' : Program Q st C) × (call Q st C c p ≡ some p') × Runs p'.update_controller
  unfolding call start stop
  call-Runs (starts no_account unset_port unset_id unset_number) p g h = (
    start Q st C no_account unset_port unset_id unset_number p,
    refl,
    (made no_account unset_port unset_id unset_number (world_of Q st C p), refl),
  )
  call-Runs stops p g h = (stop Q st C p, refl, tt)
  call-Runs (happens o) p g h =
      let (s, e, now) = happens_to o p.update_controller h in
      let (g', i) = subst Runs e g in
      let (s', r, on, j) = takes_what_happens Q st C o g' i now in
      (
        record p { update_controller = some s' },
        ap (happened_to o p) e ∙ ap (happened p) r,
        (on, j),
      )

  Sessions-Runs :
      {p : Program Q st C} (g : Sessions Q st C p)
      → in_order Q st C g ≡ true
      → Runs p.update_controller
  Sessions-Runs (booted w) i = tt
  Sessions-Runs (then_called {p} {p'} c g h r) i =
      let (before, now) = ordered i in
      let (p'', r', runs) = call-Runs c p (Sessions-Runs g before) now in
      subst (λ (p : Program Q st C). Runs p.update_controller) (some_inj (sym r' ∙ r)) runs

  waits : (o : Option (Service Q st C)) → Runs o → WaitsForOne o
  waits none g = tt
  waits (some s) (g, i) = waits_for_one Q st C g i

  -- However often the operating system started and stopped the service, and whatever came to it in
  -- between, as long as the server answers each question once (`in_order`): what is due next is taken,
  -- without a null or dangling pointer, the program is then again in a state that it comes to in order,
  -- and its controller, if there is one, waits for exactly one thing.
  pub goes_on :
      {p : Program Q st C} (c : Call Q st C) (g : Sessions Q st C p)
      → in_order Q st C g ≡ true
      → is_due Q st C c p ≡ true
      → (p' : Program Q st C) × (call Q st C c p ≡ some p')
        × ((g' : Sessions Q st C p') × (in_order Q st C g' ≡ true))
        × WaitsForOne p'.update_controller
  goes_on {p} c g i h =
      let (p', r, runs) = call-Runs c p (Sessions-Runs g i) h in
      (
        p',
        r,
        (then_called c g (due-MayHappen c p h) r, ground (arith, i, h)),
        waits p'.update_controller runs,
      )
