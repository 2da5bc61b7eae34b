-- ===== src/Update/Service/Sound.antt =====
-- What a state of the service waits for, and what the slots of the controller make of it.
use mediaupdater.Base.{
  ℕ, ◌+◌, ◌≡◌, refl, ap, sym, ◌∙◌, inl, inr, Bool, true, false, not, ◌&&◌, ◌||◌, Option, none, some,
  String, arith, if_both,
}
use mediaupdater.Base.Int.{ℤ, ltb, ltb_ℤ, pos}
use mediaupdater.Qt.{Qt}
use mediaupdater.Station.{Station, get_refresh_login, get_refresh_password}
use mediaupdater.Account.{
  AccountError, Codec, request, new_account, set_login, set_password, is_no_error,
}
use mediaupdater.Download.{Downloads, send, set_login_info}
use mediaupdater.Download.Course.{
  started, listed, command_finished, ftp_timed_out, next, ready_read, progressed, failed, finished,
  timed_out, Event, can_come, Valid,
}
use mediaupdater.Download.Course.Await.{count, awaits, timers, Turns}
use mediaupdater.Download.Course.Turn.{is_started, start-Turns}
use mediaupdater.Download.Course.Watch.Signals.{start-Watched}
use mediaupdater.Download.Course.Watch.{Watched, quiet-Watched}
use mediaupdater.Download.Phases
use mediaupdater.Download.Course.Walk.{last_action-append, emit-Valid}
use mediaupdater.Download.Course.Steps.{start-Valid}
use mediaupdater.Update.{
  Controller, start, account_manager_ready, login_of, launch, start_timer, start_upload,
}
use mediaupdater.Update.Service.{Service, notice}

pub uncounted : (b : Bool) → count b ≡ 0 → b ≡ false
uncounted true h = absurd (omega arith)
uncounted false h = refl

pub denied : (b : Bool) → not b ≡ true → b ≡ false
denied true h = sym h
denied false h = refl

pub both : (a b : Bool) → a && b ≡ true → (a ≡ true) × (b ≡ true)
both true b h = (refl, h)
both false b h = (h, absurd cc)

module _ (Q : Qt) (st : Station) (C : Codec) where
  -- How much is awaited: the timer, the account's reply, its queued signal, or what the download
  -- manager awaits.
  abbrev pub awaited : Service Q st C → ℕ
  awaited s =
      count s.controller.timer + count s.asked + count s.ready + awaits Q s.controller.downloads

  pub record Sound (s : Service Q st C) : Type 0 where
    pub one : awaited s ≡ 1
    pub valid : Valid Q s.controller.downloads
    pub watched : Watched Q s.controller.downloads

  -- The controller waits for its timer or for the download manager, once it took notice.
  abbrev Waits : ℕ → Controller Q st C → Type 0
  Waits k c =
      (count (c.timer || ltb k (timers c.downloads.trace)) + awaits Q c.downloads ≡ 1)
      × Valid Q c.downloads
      × Watched Q c.downloads

  pub noticed :
      (k : ℕ) (d : Downloads Q) → Turns Q k d → count (ltb k (timers d.trace)) + awaits Q d ≡ 1
  noticed k d (inl (o, e)) = ground (arith, e, o)
  noticed k d (inr (o, e)) = ground (arith, e, o)

  -- What the machine is does not count for the pointers.
  pub same_Valid : (w : Q.World) (d : Downloads Q) → Valid Q d → Valid Q (record d { world = w })
  same_Valid w d v = record {
    sound = v.sound;
    waiting = v.waiting;
    queued = v.queued;
    current = v.current;
  }

  pub account_manager_ready-Waits :
      (login_id : ℤ) (address : ℕ) (c : Controller Q st C)
      → c.timer ≡ false
      → awaits Q c.downloads ≡ 0
      → Valid Q c.downloads
      → Watched Q c.downloads
      → Waits (timers c.downloads.trace) (account_manager_ready Q st C login_id address c)
  unfolding account_manager_ready
  account_manager_ready-Waits login_id address c t o v g =
      let k = timers c.downloads.trace in
      let d = c.downloads in
      let l = login_of Q st C c.account d.world in
      let idle : d.reply ≡ false = ground (arith, o) in
      let begun = Phases.start Q st login_id (set_login_info Q l d) in
      let (u, w) = start_upload Q st C address (record c.upload { login_info = l }, begun.world) in
      if_both (Waits k) (not (is_no_error Q C c.account.error)) _ _
        (
          rw (last_action-append d.trace (send "{update_error}" c.account.last_error), idle) refl,
          emit-Valid Q (send "{update_error}" c.account.last_error) d refl refl refl v,
          quiet-Watched Q (send "{update_error}" c.account.last_error) d refl,
        )
        (if_both (Waits k) (ltb_ℤ (Q.parse_int l.box_id) (pos 1)) (start_timer Q st C c)
          (launch Q st C login_id address l c) (omega arith, v, g)
          (
            ap (λ b. count (b || ltb k (timers begun.trace)) + awaits Q begun) t
                ∙ noticed k begun (start-Turns Q st l login_id d idle),
            same_Valid w begun (start-Valid Q st l login_id d idle),
            start-Watched Q st l login_id d,
          ))

  abbrev outcome : Controller Q st C → Option String → Controller Q st C × Option String
  outcome c none = (start_timer Q st C c, none)
  outcome c (some url) = (c, some url)

  outcome_asks :
      (c : Controller Q st C) (sent : Option String)
      → c.timer ≡ false
      → let (c', sent') = outcome c sent in
        (count c'.timer + count (elim sent' [ none ↦ false | some _ ↦ true ]) ≡ 1)
        × (c'.downloads ≡ c.downloads)
  unfolding start_timer
  outcome_asks c none t = (refl, refl)
  outcome_asks c (some url) t = (omega (arith, ap count t), refl)

  pub start_asks :
      (unset : AccountError) (c : Controller Q st C)
      → c.timer ≡ false
      → let (c', sent) = start Q st C unset c in
        (count c'.timer + count (elim sent [ none ↦ false | some _ ↦ true ]) ≡ 1)
        × (c'.downloads ≡ c.downloads)
  unfolding start
  start_asks unset c t =
      let w = c.downloads.world in
      let a =
        set_password (get_refresh_password Q st w)
          (set_login (get_refresh_login Q st w) (new_account unset)) in
      let (a', sent) = request Q C a in outcome_asks (record c { account = a' }) sent t

  -- Where something comes to the download manager, that is what is awaited, and nothing else.
  pub something_comes :
      (e : Event) (d : Downloads Q)
      → not (is_started e) ≡ true
      → can_come Q e d ≡ true
      → (k : ℕ) → k + awaits Q d ≡ 1
      → (awaits Q d ≡ 1) × (k ≡ 0)
  something_comes (started l id) d s h k o = absurd cc
  something_comes (listed info) d s h k o = ground arith
  something_comes (command_finished f) d s h k o = ground arith
  something_comes ftp_timed_out d s h k o = ground arith
  something_comes (next id) d s h k o = ground arith
  something_comes (ready_read bytes) d s h k o = ground arith
  something_comes (progressed cb tb) d s h k o = ground arith
  something_comes failed d s h k o = ground arith
  something_comes (finished no_error) d s h k o = ground arith
  something_comes (timed_out bytes available) d s h k o = ground arith

  abbrev pub taken_of : Service Q st C → Option (Downloads Q) → Option (Service Q st C)
  taken_of s o =
      let c = s.controller in
      elim o [
        | none ↦ none
        | some d ↦
            some (record s {
              controller = notice Q st C c.downloads.trace (record c { downloads = d });
            })
      ]
