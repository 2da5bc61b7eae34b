-- ===== src/Update/Service/Protocol/Signals.antt =====
-- What a signal to the download manager makes of the phase of the service.
use mediaupdater.Base.{◌≡◌, refl, ap, true, false, not, arith, inl, inr, Bool-cases, ◌⊎◌}
use mediaupdater.Qt.{Qt}
use mediaupdater.Station.{Station}
use mediaupdater.Account.{Codec}
use mediaupdater.Download.Course.{
  Event, started, listed, command_finished, ftp_timed_out, next, ready_read, progressed, failed,
  finished, timed_out, can_come, walks,
}
use mediaupdater.Download.Course.Await.{count, awaits}
use mediaupdater.Download.Course.Turn.{is_started}
use mediaupdater.Download.Course.Mode.{Leaves}
use mediaupdater.Update.Service.{Service}
use mediaupdater.Update.Service.Sound.{Sound}
use mediaupdater.Update.Service.Protocol.{
  waiting, walking, stepping, downloading, signal_leads, phase_of, works, walking_phase,
  stepping_phase, downloading_phase, idle_phase, resting_phase,
}

module _ (Q : Qt) (st : Station) (C : Codec) where
  -- From a phase that waits for the server, by an answer.
  walk_follows :
      (e : Event) (s s' : Service Q st C)
      → phase_of Q st C s ≡ walking
      → signal_leads e walking walking ≡ true
      → signal_leads e walking stepping ≡ true
      → (signal_leads e walking waiting ≡ true) ⊎ (s'.controller.timer ≡ false)
      → s'.asked ≡ false
      → s'.ready ≡ false
      → s'.controller.downloads.reply ≡ false
      → signal_leads e (phase_of Q st C s) (phase_of Q st C s') ≡ true
  walk_follows e s s' at w p t a q r = elim (idle_phase Q st C s' a q r) [
    | inr (inl at') ↦ rw (at, at') w
    | inr (inr at') ↦ rw (at, at') p
    | inl at' ↦ elim t [
      | inl t' ↦ rw (at, at') t'
      | inr n ↦ rw at (elim (Bool-cases (walks Q s'.controller.downloads)) [
        | inl w' ↦ rw (walking_phase Q st C s' (n, a, q) r w') w
        | inr w' ↦ rw (stepping_phase Q st C s' (n, a, q) r w') p
      ])
    ]
  ]

  transfer_follows :
      (e : Event) (s s' : Service Q st C)
      → Sound Q st C s'
      → phase_of Q st C s ≡ downloading
      → signal_leads e downloading downloading ≡ true
      → s'.controller.downloads.reply ≡ true
      → signal_leads e (phase_of Q st C s) (phase_of Q st C s') ≡ true
  transfer_follows e s s' g' at h r =
      rw
        (at, downloading_phase Q st C s' (works Q st C s' g' (omega (arith, g'.one, ap count r))) r)
        h

  pub signal_follows :
      (e : Event) (s s' : Service Q st C)
      → Sound Q st C s
      → Sound Q st C s'
      → not (is_started e) ≡ true
      → can_come Q e s.controller.downloads ≡ true
      → awaits Q s.controller.downloads ≡ 1
      → s'.asked ≡ false
      → s'.ready ≡ false
      → Leaves Q st e s'.controller.downloads
      → signal_leads e (phase_of Q st C s) (phase_of Q st C s') ≡ true
  signal_follows (started l id) s s' g g' m h o a q l' = absurd cc
  signal_follows (listed info) s s' g g' m h o a q (o', r) =
      walk_follows (listed info) s s'
        (walking_phase Q st C s (works Q st C s g o) (ground arith) (ground arith)) refl refl
        (inr (works Q st C s' g' o').0) a q r
  signal_follows (command_finished f) s s' g g' m h o a q r =
      walk_follows (command_finished f) s s'
        (walking_phase Q st C s (works Q st C s g o) (ground arith) h) refl refl (inl refl) a q r
  signal_follows ftp_timed_out s s' g g' m h o a q n =
      rw
        (
          walking_phase Q st C s (works Q st C s g o) (ground arith) (ground arith),
          resting_phase Q st C s' g' a q n,
        )
        refl
  signal_follows (next id) s s' g g' m h o a q _ =
      let at = stepping_phase Q st C s (works Q st C s g o) (ground arith) (ground arith) in
      elim (Bool-cases s'.controller.downloads.reply) [
        | inl r ↦
            rw
              (
                at,
                downloading_phase Q st C s' (works Q st C s' g' (omega (arith, g'.one, ap count r)))
                    r,
              )
              refl
        | inr r ↦ elim (idle_phase Q st C s' a q r) [
          | inl at' ↦ rw (at, at') refl
          | inr (inl at') ↦ rw (at, at') refl
          | inr (inr at') ↦ rw (at, at') refl
        ]
      ]
  signal_follows (ready_read bytes) s s' g g' m h o a q r =
      transfer_follows (ready_read bytes) s s' g'
        (downloading_phase Q st C s (works Q st C s g o) h) refl r
  signal_follows (progressed cb tb) s s' g g' m h o a q r =
      transfer_follows (progressed cb tb) s s' g'
        (downloading_phase Q st C s (works Q st C s g o) h) refl r
  signal_follows failed s s' g g' m h o a q r =
      transfer_follows failed s s' g' (downloading_phase Q st C s (works Q st C s g o) h) refl r
  signal_follows (timed_out bytes available) s s' g g' m h o a q r =
      transfer_follows (timed_out bytes available) s s' g'
        (downloading_phase Q st C s (works Q st C s g o) (ground arith)) refl r
  signal_follows (finished no_error) s s' g g' m h o a q p =
      let posted_one : awaits Q s'.controller.downloads ≡ 1 = ground (arith, p) in
      rw
        (
          downloading_phase Q st C s (works Q st C s g o) h,
          stepping_phase Q st C s' (works Q st C s' g' posted_one) (ground (arith, p))
              (ground (arith, p)),
        )
        refl
