-- ===== src/Update/Service/Runs.antt =====
-- The service over any run, from its making on.
use mediaupdater.Base.{ℕ, ◌≡◌, refl, sym, subst, ◌∙◌, true, false, some, arith}
use mediaupdater.Base.Int.{ℤ}
use mediaupdater.LoginInfo.{unset}
use mediaupdater.Qt.{Qt}
use mediaupdater.Station.{Station}
use mediaupdater.Account.{Account, Codec}
use mediaupdater.Download.{new_downloads}
use mediaupdater.Download.Course.{walks}
use mediaupdater.Download.Course.Safety.{some_inj, ordered, created-Valid}
use mediaupdater.Update.Service.{
  Occurrence, Service, can_happen, can_may_happen, take, new_service, Run, in_order, made,
  then_came,
}
use mediaupdater.Update.Service.Sound.{awaited, Sound}
use mediaupdater.Update.Service.Laws.{take-Sound}
use mediaupdater.Update.Service.Watching.{Run-Watched}

module _ (Q : Qt) (st : Station) (C : Codec) where
  new_service-Sound :
      (no_account : Account) (unset_port unset_id : ℤ) (unset_number : ℕ) (w : Q.World)
      → Sound Q st C (new_service Q st C no_account unset_port unset_id unset_number w)
  unfolding new_service new_downloads
  new_service-Sound no_account unset_port unset_id unset_number w = record {
    one = refl;
    valid = created-Valid Q st (unset unset_port) unset_id unset_number w;
    watched = λ h. absurd cc;
  }

  pub Run-Sound :
      {s : Service Q st C} (g : Run Q st C s) → in_order Q st C g ≡ true → Sound Q st C s
  Run-Sound (made no_account unset_port unset_id unset_number w) i =
      new_service-Sound no_account unset_port unset_id unset_number w
  Run-Sound (then_came {s} {s'} o g h r) i =
      let (before, now) = ordered i in
      let (s'', r', sound) = take-Sound Q st C o s (Run-Sound g before) now in
      subst (Sound Q st C) (some_inj (sym r' ∙ r)) sound

  -- After any run of the service from its making on, in order, it waits for exactly one thing: its timer, the
  -- reply of the account, its queued signal, an answer of the FTP server, a posted step of the
  -- download manager, or a reply with a file.
  pub waits_for_one :
      {s : Service Q st C} (g : Run Q st C s) → in_order Q st C g ≡ true → awaited Q st C s ≡ 1
  waits_for_one g i = (Run-Sound g i).one

  -- After any run of the service from its making on, in order, whatever can happen in order is taken:
  -- no slot follows a null pointer, or a pointer to a content that was deleted; and the run goes on in
  -- order.
  pub takes_what_happens :
      {s : Service Q st C} (o : Occurrence) (g : Run Q st C s)
      → in_order Q st C g ≡ true
      → can_happen Q st C o s ≡ true
      → (s' : Service Q st C) × (take Q st C o s ≡ some s')
        × (g' : Run Q st C s') × (in_order Q st C g' ≡ true)
  takes_what_happens {s} o g i h =
      let (s', r, _) = take-Sound Q st C o s (Run-Sound g i) h in
      (s', r, then_came o g (can_may_happen Q st C o s h) r, ground (arith, i, h))

  -- After any run of the service from its making on, by whatever may come, where the FTP server was asked last, the timer
  -- that notices its silence runs, and has not run out.
  pub server_is_watched :
      {s : Service Q st C}
      → Run Q st C s
      → walks Q s.controller.downloads ≡ true
      → (s.controller.downloads.ftp_timer ≡ true) × (s.controller.downloads.ftp_timed_out ≡ false)
  server_is_watched g = Run-Watched Q st C g
