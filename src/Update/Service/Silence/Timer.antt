-- ===== src/Update/Service/Silence/Timer.antt =====
-- The timer of a reply over any run of the service.
use mediaupdater.Base.{◌≡◌, refl, ap, sym, subst, ◌∙◌, true, false, not, some, arith}
use mediaupdater.Qt.{Qt}
use mediaupdater.Station.{Station}
use mediaupdater.Account.{Codec}
use mediaupdater.Download.{new_downloads}
use mediaupdater.Download.Course.{can_come}
use mediaupdater.Download.Course.Await.{count}
use mediaupdater.Download.Course.Turn.{is_started}
use mediaupdater.Download.Course.Armed.{Armed, idle-Armed, handle-Armed}
use mediaupdater.Download.Course.Safety.{some_inj, ordered, handle-Returns}
use mediaupdater.Update.{account_manager_ready}
use mediaupdater.Update.Service.{
  Occurrence, fired, answered, account_late, delivered, came, came_late, Service, can_happen,
  notice, take, new_service, Run, in_order, made, then_came,
}
use mediaupdater.Update.Service.Sound.{
  Sound, uncounted, denied, both, something_comes, start_asks, taken_of,
}
use mediaupdater.Update.Service.Late.{late-Sound}
use mediaupdater.Update.Service.Runs.{Run-Sound}
use mediaupdater.Update.Service.Protocol.Laws.{account_manager_ready_reply}

module _ (Q : Qt) (st : Station) (C : Codec) where
  abbrev ArmedService : Service Q st C → Type 0
  ArmedService s = Armed Q s.controller.downloads

  pub take-Armed :
      (o : Occurrence) (s s' : Service Q st C)
      → Sound Q st C s
      → can_happen Q st C o s ≡ true
      → take Q st C o s ≡ some s'
      → ArmedService s
      → ArmedService s'
  unfolding take notice
  take-Armed (fired unset_error) s s' g h r m =
      let c = s.controller in
      let (_, same) = start_asks Q st C unset_error (record c { timer = false }) refl in
      subst ArmedService (some_inj r) (subst (Armed Q) (sym same) m)
  take-Armed (answered a) s s' g h r m = subst ArmedService (some_inj r) m
  take-Armed account_late s s' g h r m = subst ArmedService (some_inj r) m
  take-Armed (delivered login_id address) s s' g h r m =
      let c = s.controller in
      let idle = uncounted c.downloads.reply (omega (arith, g.one, ap count h)) in
      subst ArmedService (some_inj r) (
        idle-Armed Q (account_manager_ready Q st C login_id address c).downloads
          (account_manager_ready_reply Q st C login_id address c ∙ idle))
  take-Armed (came e) s s' g h r m =
      let d = s.controller.downloads in
      let (mine, now) = both (not (is_started e)) (can_come Q e d) h in
      let (o, _) = something_comes Q st C e d mine now _ g.one in
      let (d', r', _) = handle-Returns Q st e d g.valid now in
      subst ArmedService (some_inj (sym (ap (taken_of Q st C s) r') ∙ r))
        (handle-Armed Q st e d d' (denied (is_started e) mine) g.valid o now r')
  take-Armed (came_late e) s s' g h r m =
      let (at, _) = late-Sound Q st C e s g h in subst ArmedService (some_inj (sym at ∙ r)) m

  pub Run-Armed :
      {s : Service Q st C} (g : Run Q st C s) → in_order Q st C g ≡ true → ArmedService s
  unfolding new_service new_downloads
  Run-Armed (made no_account unset_port unset_id unset_number w) i = λ h. absurd cc
  Run-Armed (then_came {s} {s'} o g h r) i =
      let (before, now) = ordered i in
      take-Armed o s s' (Run-Sound Q st C g before) now r (Run-Armed g before)
