-- ===== src/Update/Service/Protocol.antt =====
-- The service seen as a machine of six phases: what each occurrence makes of the phase.
pub mod Signals
pub mod Laws
use mediaupdater.Base.{
  ℕ, ◌+◌, ◌≡◌, refl, ap, sym, subst, ◌∙◌, Bool, true, false, not, ◌&&◌, ◌||◌, Option, none, some,
  arith, inl, inr, Bool-cases, ◌⊎◌, if_both,
}
use mediaupdater.Base.Int.{ℤ, pos, ltb_ℤ}
use mediaupdater.Qt.{Qt}
use mediaupdater.Station.{Station}
use mediaupdater.Account.{Codec, AccountError, Reply, is_no_error, reply_finished, request_timeout}
use mediaupdater.Download.{Downloads, set_login_info, check_connection_settings}
use mediaupdater.Download.Course.{
  Event, started, listed, command_finished, ftp_timed_out, next, ready_read, progressed, failed,
  finished, timed_out, can_come, handle, walks, posted,
}
use mediaupdater.Download.Course.Await.{count, awaits}
use mediaupdater.Download.Course.Turn.{is_started}
use mediaupdater.Download.Course.Mode.{GoesOn, Leaves, handle-Leaves}
use mediaupdater.Download.Course.Safety.{some_inj, handle-Returns}
use mediaupdater.LoginInfo.{LoginInfo}
use mediaupdater.Download.Ftp.{get_total_size, connect_to_ftp}
use mediaupdater.Download.Phases.{add_content}
use mediaupdater.Download.Phases
use mediaupdater.Update.{Controller, account_manager_ready, launch, login_of}
use mediaupdater.Update
use mediaupdater.Update.Service.{
  with_machine, Occurrence, fired, answered, account_late, delivered, came, came_late, Service,
  can_happen, notice, take, Run,
}
use mediaupdater.Update.Service.Sound.{
  start_asks, something_comes, both, denied, awaited, Sound, taken_of, uncounted,
}
use mediaupdater.Update.Service.Laws.{take-Sound}
use mediaupdater.Update.Service.Runs.{Run-Sound}

-- Waiting for the timer, for the account, for the queued answer of the account, for the FTP server, for
-- a posted step, and for a file.
pub data Phase : Type 0 where
  waiting asking answering walking stepping downloading : Phase

abbrev phase_at : Bool → Bool → Bool → Bool → Bool → Phase
phase_at true _ _ _ _ = waiting
phase_at false true _ _ _ = asking
phase_at false false true _ _ = answering
phase_at false false false true _ = downloading
phase_at false false false false true = walking
phase_at false false false false false = stepping

-- The phases that a signal to the download manager leads to.
abbrev pub signal_leads : Event → Phase → Phase → Bool
signal_leads (listed info) walking walking = true
signal_leads (listed info) walking stepping = true
signal_leads (command_finished f) walking walking = true
signal_leads (command_finished f) walking stepping = true
signal_leads (command_finished f) walking waiting = true
signal_leads ftp_timed_out walking waiting = true
signal_leads (next id) stepping waiting = true
signal_leads (next id) stepping walking = true
signal_leads (next id) stepping stepping = true
signal_leads (next id) stepping downloading = true
signal_leads (ready_read bytes) downloading downloading = true
signal_leads (progressed cb tb) downloading downloading = true
signal_leads failed downloading downloading = true
signal_leads (timed_out bytes available) downloading downloading = true
signal_leads (finished no_error) downloading stepping = true
signal_leads _ _ _ = false

abbrev pub leads : Occurrence → Phase → Phase → Bool
leads (fired unset) waiting waiting = true
leads (fired unset) waiting asking = true
leads (answered r) asking answering = true
leads account_late asking asking = true
leads (delivered login_id address) answering waiting = true
leads (delivered login_id address) answering walking = true
leads (delivered login_id address) answering stepping = true
leads (came e) p p' = signal_leads e p p'
leads (came_late e) waiting waiting = true
leads (came_late e) asking asking = true
leads (came_late e) answering answering = true
leads (came_late e) walking walking = true
leads (came_late e) stepping stepping = true
leads (came_late e) downloading downloading = true
leads _ _ _ = false

module _ (Q : Qt) (st : Station) (C : Codec) where
  abbrev pub phase_of : Service Q st C → Phase
  phase_of s =
      let c = s.controller in
      phase_at c.timer s.asked s.ready c.downloads.reply (walks Q c.downloads)

  -- Nothing but the download manager is waited for.
  abbrev pub Works : Service Q st C → Type 0
  Works s = (s.controller.timer ≡ false) × (s.asked ≡ false) × (s.ready ≡ false)

  pub works : (s : Service Q st C) → Sound Q st C s → awaits Q s.controller.downloads ≡ 1 → Works s
  works s g o = (
    uncounted _ (omega (arith, g.one, o)),
    uncounted _ (omega (arith, g.one, o)),
    uncounted _ (omega (arith, g.one, o)),
  )

  pub walking_phase :
      (s : Service Q st C)
      → Works s
      → s.controller.downloads.reply ≡ false
      → walks Q s.controller.downloads ≡ true
      → phase_of s ≡ walking
  walking_phase s (t, a, q) r w = rw (t, a, q, r, w) refl

  pub stepping_phase :
      (s : Service Q st C)
      → Works s
      → s.controller.downloads.reply ≡ false
      → walks Q s.controller.downloads ≡ false
      → phase_of s ≡ stepping
  stepping_phase s (t, a, q) r w = rw (t, a, q, r, w) refl

  pub downloading_phase :
      (s : Service Q st C)
      → Works s
      → s.controller.downloads.reply ≡ true
      → phase_of s ≡ downloading
  downloading_phase s (t, a, q) r = rw (t, a, q, r) refl

  pub waiting_phase : (s : Service Q st C) → s.controller.timer ≡ true → phase_of s ≡ waiting
  waiting_phase s t = rw t refl

  -- The phases that are left where the account is not waited for, and no file is.
  pub idle_phase :
      (s : Service Q st C)
      → s.asked ≡ false
      → s.ready ≡ false
      → s.controller.downloads.reply ≡ false
      → (phase_of s ≡ waiting) ⊎ ((phase_of s ≡ walking) ⊎ (phase_of s ≡ stepping))
  idle_phase s a q r = elim (Bool-cases s.controller.timer) [
    | inl t ↦ inl (waiting_phase s t)
    | inr t ↦ elim (Bool-cases (walks Q s.controller.downloads)) [
      | inl w ↦ inr (inl (walking_phase s (t, a, q) r w))
      | inr w ↦ inr (inr (stepping_phase s (t, a, q) r w))
    ]
  ]

  pub resting_phase :
      (s : Service Q st C)
      → Sound Q st C s
      → s.asked ≡ false
      → s.ready ≡ false
      → awaits Q s.controller.downloads ≡ 0
      → phase_of s ≡ waiting
  resting_phase s g a q o = elim (Bool-cases s.controller.timer) [
    | inl t ↦ waiting_phase s t
    | inr t ↦ absurd (omega (arith, g.one, o, ap count a, ap count q, ap count t))
  ]
