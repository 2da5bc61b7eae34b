-- ===== src/Update/Service/Late.antt =====
-- Signals of QFtp that are not awaited: answers of a server that was given up, and the ends of earlier
-- commands.
use mediaupdater.Base.{
  if_true, if_false, Bool-cases, inl, inr, ◌∙◌, ◌&&◌, ◌==◌, ℕ, ◌≡◌, ap, Bool, true, false, some,
  arith,
}
use mediaupdater.Base.Int.{ltb, int_eq}
use mediaupdater.Qt.{Qt}
use mediaupdater.Station.{Station}
use mediaupdater.Account.{Codec}
use mediaupdater.Download.{Downloads}
use mediaupdater.Download.Course.{
  started, listed, command_finished, ftp_timed_out, next, ready_read, progressed, failed, finished,
  timed_out, Event, handle, Valid,
}
use mediaupdater.Download.Ftp.{list_info, ftp_command_finished, is_logged_in}
use mediaupdater.Download.Course.Await.{count, timers}
use mediaupdater.Download.Course.Watch.{Watched}
use mediaupdater.Update.Service.{came_late, is_late, Service, notice, take}
use mediaupdater.Update.Service.Sound.{Sound, taken_of}

module _ (Q : Qt) (st : Station) (C : Codec) where
  -- What is not awaited changes nothing, but that an answer after the timeout stops the timer.
  abbrev still_runs : Event → Bool → Bool
  still_runs (listed info) b = false
  still_runs _ b = b

  abbrev pub after_late : Event → Downloads Q → Downloads Q
  after_late e d = record d { ftp_timer = still_runs e d.ftp_timer }

  pub handle-after_late :
      (e : Event) (d : Downloads Q) → is_late Q e d ≡ true → handle Q st e d ≡ some (after_late e d)
  unfolding handle list_info ftp_command_finished
  handle-after_late (listed info) d h = ap some (if_true d.ftp_timed_out _ _ h)
  handle-after_late (command_finished f) d h = elim (Bool-cases d.ftp_timed_out) [
    | inl y ↦ ap some (if_true d.ftp_timed_out _ _ y)
    | inr n ↦ ap some (
        if_false d.ftp_timed_out _ _ n
        ∙ if_false f.failed _ _ (ground (arith, h, n))
        ∙ if_false (is_logged_in f.state && d.login_command == f.id) _ _ (ground (arith, h, n)))
  ]
  handle-after_late (started l id) d h = absurd cc
  handle-after_late ftp_timed_out d h = absurd cc
  handle-after_late (next id) d h = absurd cc
  handle-after_late (ready_read bytes) d h = absurd cc
  handle-after_late (progressed cb tb) d h = absurd cc
  handle-after_late failed d h = absurd cc
  handle-after_late (finished no_error) d h = absurd cc
  handle-after_late (timed_out bytes available) d h = absurd cc

  -- What such a signal makes of the service.
  abbrev pub late : Event → Service Q st C → Service Q st C
  late e s =
      let c = s.controller in
      record s {
        controller =
            notice Q st C c.downloads.trace (record c { downloads = after_late e c.downloads });
      }

  pub late-Watched :
      (e : Event) (d : Downloads Q)
      → is_late Q e d ≡ true
      → Watched Q d
      → Watched Q (after_late e d)
  late-Watched (listed info) d h v = λ w. absurd (ground (arith, v w, h))
  late-Watched (command_finished f) d h v = v
  late-Watched (started l id) d h v = absurd cc
  late-Watched ftp_timed_out d h v = absurd cc
  late-Watched (next id) d h v = absurd cc
  late-Watched (ready_read bytes) d h v = absurd cc
  late-Watched (progressed cb tb) d h v = absurd cc
  late-Watched failed d h v = absurd cc
  late-Watched (finished no_error) d h v = absurd cc
  late-Watched (timed_out bytes available) d h v = absurd cc

  late_Valid : (e : Event) (d : Downloads Q) → Valid Q d → Valid Q (after_late e d)
  late_Valid e d v = record {
    sound = v.sound;
    waiting = v.waiting;
    queued = v.queued;
    current = v.current;
  }

  no_more : (n : ℕ) → ltb n n ≡ false
  no_more n = ground arith

  pub late_timer :
      (e : Event) (s : Service Q st C) → (late e s).controller.timer ≡ s.controller.timer
  unfolding notice
  late_timer e s = ground (arith, no_more (timers s.controller.downloads.trace))

  pub late-Sound :
      (e : Event) (s : Service Q st C)
      → Sound Q st C s
      → is_late Q e s.controller.downloads ≡ true
      → (take Q st C (came_late e) s ≡ some (late e s)) × Sound Q st C (late e s)
  unfolding take notice
  late-Sound e s g h =
      let d = s.controller.downloads in
      let same = late_timer e s in
      (
        ap (taken_of Q st C s) (handle-after_late e d h),
        record {
          one = omega (arith, g.one, ap count same);
          valid = late_Valid e d g.valid;
          watched = late-Watched e d h g.watched;
        },
      )
