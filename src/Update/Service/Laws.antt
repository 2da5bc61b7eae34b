-- ===== src/Update/Service/Laws.antt =====
-- The steps of the service, from a state to the next.
use mediaupdater.Base.{◌≡◌, refl, ap, sym, subst, true, false, not, ◌||◌, none, some, arith}
use mediaupdater.Base.Int.{ltb}
use mediaupdater.Qt.{Qt}
use mediaupdater.Station.{Station}
use mediaupdater.Account.{Codec, reply_finished, request_timeout}
use mediaupdater.Download.Course.{can_come, can_may_come, Valid}
use mediaupdater.Download.Course.Await.{count, awaits, timers}
use mediaupdater.Download.Course.Turn.Signals.{handle-Turns}
use mediaupdater.Download.Course.Turn.{is_started}
use mediaupdater.Download.Course.Watch.Signals.{handle-Watched}
use mediaupdater.Download.Course.Watch.{Watched}
use mediaupdater.Download.Course.Safety.{handle-Returns}
use mediaupdater.Update.{start, account_manager_ready}
use mediaupdater.Update.Service.{
  Occurrence, fired, answered, account_late, delivered, came, came_late, Service, can_happen,
  notice, take, with_machine,
}
use mediaupdater.Update.Service.Sound.{
  Sound, noticed, same_Valid, account_manager_ready-Waits, start_asks, something_comes, taken_of,
  uncounted, denied, both,
}
use mediaupdater.Update.Service.Late.{late, late-Sound}

module _ (Q : Qt) (st : Station) (C : Codec) where
  pub take-Sound :
      (o : Occurrence) (s : Service Q st C)
      → Sound Q st C s
      → can_happen Q st C o s ≡ true
      → (s' : Service Q st C) × (take Q st C o s ≡ some s') × Sound Q st C s'
  unfolding take
  take-Sound (fired unset) s g h =
      let c = s.controller in
      let timed = record c { timer = false } in
      let (c', sent) = start Q st C unset timed in
      let (asks, same) = start_asks Q st C unset timed refl in
      (
        record s { controller = c'; asked = elim sent [ none ↦ false | some _ ↦ true ] },
        refl,
        record {
          one = omega (arith, g.one, ap count h, asks, ap (λ d. awaits Q d) same);
          valid = subst (Valid Q) (sym same) g.valid;
          watched = subst (Watched Q) (sym same) g.watched;
        },
      )
  take-Sound (answered r) s g h =
      let c = s.controller in
      let (a, w) = reply_finished Q C r (c.account, c.downloads.world) in
      (
        record s {
          controller = with_machine Q st C w (record c { account = a });
          asked = false;
          ready = true;
        },
        refl,
        record {
          one = omega (arith, g.one, ap count h);
          valid = same_Valid Q st C w c.downloads g.valid;
          watched = g.watched;
        },
      )
  take-Sound account_late s g h =
      let c = s.controller in
      (
        record s { controller = record c { account = (request_timeout Q C c.account).0 } },
        refl,
        record { one = g.one; valid = g.valid; watched = g.watched },
      )
  take-Sound (delivered login_id address) s g h =
      let c = s.controller in
      let k = timers c.downloads.trace in
      let c' = account_manager_ready Q st C login_id address c in
      let (one, valid, watched) =
        account_manager_ready-Waits Q st C login_id address c
          (uncounted c.timer (omega (arith, g.one, ap count h))) (omega (arith, g.one, ap count h))
          g.valid g.watched in
      (
        record s { controller = notice Q st C c.downloads.trace c'; ready = false },
        refl,
        record { one = omega (arith, g.one, ap count h, one); valid = valid; watched = watched },
      )
  take-Sound (came e) s g h =
      let c = s.controller in
      let d = c.downloads in
      let k = timers d.trace in
      let (mine, now) = both (not (is_started e)) (can_come Q e d) h in
      let (o, none_else) = something_comes Q st C e d mine now _ g.one in
      let (d', r, v) = handle-Returns Q st e d g.valid now in
      let turns = handle-Turns Q st e d d' (denied (is_started e) mine) o now r in
      let idle = uncounted c.timer (omega (arith, none_else)) in
      let turned = noticed Q st C k d' turns in
      let c' = notice Q st C d.trace (record c { downloads = d' }) in
      (
        record s { controller = c' },
        ap (taken_of Q st C s) r,
        record {
          one =
              omega (arith, none_else, ap (λ b. count (b || ltb k (timers d'.trace))) idle, turned);
          valid = v;
          watched =
              handle-Watched Q st e d d' (denied (is_started e) mine) (can_may_come Q e d now)
                g.watched r;
        },
      )
  take-Sound (came_late e) s g h =
      let (at, g') = late-Sound Q st C e s g h in (late Q st C e s, at, g')
