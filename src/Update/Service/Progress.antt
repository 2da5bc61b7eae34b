-- ===== src/Update/Service/Progress.antt =====
-- The progress that the service reports over any run.
use mediaupdater.Base.{
  ℕ, suc, ◌≤◌, ◌≡◌, refl, ap, sym, subst, ◌∙◌, true, false, not, some, arith, if_both,
}
use mediaupdater.Base.Int.{ℤ, pos, ltb_ℤ}
use mediaupdater.Qt.{Qt}
use mediaupdater.Station.{Station}
use mediaupdater.Account.{Codec, is_no_error}
use mediaupdater.Download.{send, new_downloads}
use mediaupdater.Download.Transfer.{percent}
use mediaupdater.Download.Transfer.Progress.{Steps-percent, none_yet}
use mediaupdater.Download.Course.{can_come}
use mediaupdater.Download.Course.Await.{count}
use mediaupdater.Download.Course.Turn.{is_started}
use mediaupdater.Download.Course.Tally.{Fair, idle-Fair}
use mediaupdater.Download.Course.Tally.Signals.{start-Fair, handle-Fair}
use mediaupdater.Download.Course.Safety.{some_inj, ordered, handle-Returns}
use mediaupdater.Update.{Controller, account_manager_ready, login_of, launch, start_timer}
use mediaupdater.Update.Service.{
  Occurrence, fired, answered, account_late, delivered, came, came_late, Service, can_happen,
  notice, take, new_service, Run, in_order, made, then_came,
}
use mediaupdater.Update.Service.Sound.{
  Sound, uncounted, denied, both, something_comes, start_asks, taken_of,
}
use mediaupdater.Update.Service.Late.{late-Sound}
use mediaupdater.Update.Service.Runs.{Run-Sound}

module _ (Q : Qt) (st : Station) (C : Codec) where
  abbrev FairService : Service Q st C → Type 0
  FairService s = Fair Q st s.controller.downloads

  account_manager_ready-Fair :
      (login_id : ℤ) (address : ℕ) (c : Controller Q st C)
      → c.downloads.reply ≡ false
      → Fair Q st c.downloads
      → Fair Q st (account_manager_ready Q st C login_id address c).downloads
  unfolding account_manager_ready launch start_timer
  account_manager_ready-Fair login_id address c r f =
      let l = login_of Q st C c.account c.downloads.world in
      let fair = λ (c' : Controller Q st C). Fair Q st c'.downloads in
      if_both fair (not (is_no_error Q C c.account.error)) _ _
        (idle-Fair Q st (send "{update_error}" c.account.last_error) c.downloads refl refl r)
        (if_both fair (ltb_ℤ (Q.parse_int l.box_id) (pos 1)) (start_timer Q st C c)
          (launch Q st C login_id address l c) f (start-Fair Q st l login_id c.downloads))

  take-Fair :
      (o : Occurrence) (s s' : Service Q st C)
      → Sound Q st C s
      → can_happen Q st C o s ≡ true
      → take Q st C o s ≡ some s'
      → FairService s
      → FairService s'
  unfolding take notice
  take-Fair (fired unset) s s' g h r f =
      let c = s.controller in
      let (_, same) = start_asks Q st C unset (record c { timer = false }) refl in
      subst FairService (some_inj r) (subst (Fair Q st) (sym same) f)
  take-Fair (answered a) s s' g h r f = subst FairService (some_inj r) f
  take-Fair account_late s s' g h r f = subst FairService (some_inj r) f
  take-Fair (delivered login_id address) s s' g h r f =
      let idle = uncounted s.controller.downloads.reply (omega (arith, g.one, ap count h)) in
      subst FairService (some_inj r)
        (account_manager_ready-Fair login_id address s.controller idle f)
  take-Fair (came e) s s' g h r f =
      let d = s.controller.downloads in
      let (mine, now) = both (not (is_started e)) (can_come Q e d) h in
      let (o, _) = something_comes Q st C e d mine now _ g.one in
      let (d', r', _) = handle-Returns Q st e d g.valid now in
      subst FairService (some_inj (sym (ap (taken_of Q st C s) r') ∙ r))
        (handle-Fair Q st e d d' (denied (is_started e) mine) g.valid o now f r')
  take-Fair (came_late e) s s' g h r f =
      let (at, _) = late-Sound Q st C e s g h in subst FairService (some_inj (sym at ∙ r)) f

  Run-Fair : {s : Service Q st C} (g : Run Q st C s) → in_order Q st C g ≡ true → FairService s
  unfolding new_service new_downloads
  Run-Fair (made no_account unset_port unset_id unset_number w) i =
      λ h. (λ x. absurd cc, λ x. absurd cc)
  Run-Fair (then_came {s} {s'} o g h r) i =
      let (before, now) = ordered i in
      take-Fair o s s' (Run-Sound Q st C g before) now r (Run-Fair g before)

  -- After any run of the service from its making on, in which the server answers each question once,
  -- where a file of the content phase is downloaded:
  -- the percentage that is reported when its download ends is at most 100.
  pub percent-Run :
      {s : Service Q st C} (g : Run Q st C s)
      → in_order Q st C g ≡ true
      → s.controller.downloads.revision ≡ false
      → s.controller.downloads.reply ≡ true
      → let d = s.controller.downloads in
        percent Q st (suc d.current_numbers) d.content_files_numbers ≤ 100
  percent-Run {s} g i c r =
      let (_, counted) = Run-Fair g i c in
      Steps-percent Q st {d = s.controller.downloads} (counted (ground (arith, r))) none_yet r
