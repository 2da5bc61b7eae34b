-- ===== src/Update/Service/Watching.antt =====
-- The timer that watches the FTP server over any run of the service.
use mediaupdater.Base.{
  ℕ, ◌≡◌, refl, ap, sym, subst, ◌∙◌, true, false, not, some, inl, inr, if_both, Option-cases,
}
use mediaupdater.Base.Int.{ℤ, pos, ltb_ℤ}
use mediaupdater.Qt.{Qt}
use mediaupdater.Station.{Station}
use mediaupdater.Account.{Codec, is_no_error}
use mediaupdater.Download.{send, new_downloads}
use mediaupdater.Download.Course.{may_come, handle}
use mediaupdater.Download.Course.Turn.{is_started, none_differs}
use mediaupdater.Download.Course.Watch.{Watched, quiet-Watched}
use mediaupdater.Download.Course.Watch.Signals.{start-Watched, handle-Watched}
use mediaupdater.Download.Course.Safety.{some_inj}
use mediaupdater.Update.{Controller, account_manager_ready, login_of, launch, start_timer}
use mediaupdater.Update.Service.{
  Occurrence, fired, answered, account_late, delivered, came, came_late, Service, may_happen,
  notice, take, new_service, Run, made, then_came,
}
use mediaupdater.Update.Service.Sound.{denied, both, start_asks, taken_of}
use mediaupdater.Update.Service.Late.{late-Watched, handle-after_late}

module _ (Q : Qt) (st : Station) (C : Codec) where
  abbrev WatchedService : Service Q st C → Type 0
  WatchedService s = Watched Q s.controller.downloads

  account_manager_ready-Watched :
      (login_id : ℤ) (address : ℕ) (c : Controller Q st C)
      → Watched Q c.downloads
      → Watched Q (account_manager_ready Q st C login_id address c).downloads
  unfolding account_manager_ready launch start_timer
  account_manager_ready-Watched login_id address c v =
      let l = login_of Q st C c.account c.downloads.world in
      let watched = λ (c' : Controller Q st C). Watched Q c'.downloads in
      if_both watched (not (is_no_error Q C c.account.error)) _ _
        (quiet-Watched Q (send "{update_error}" c.account.last_error) c.downloads refl)
        (if_both watched (ltb_ℤ (Q.parse_int l.box_id) (pos 1)) (start_timer Q st C c)
          (launch Q st C login_id address l c) v (start-Watched Q st l login_id c.downloads))

  take-Watched :
      (o : Occurrence) (s s' : Service Q st C)
      → may_happen Q st C o s ≡ true
      → take Q st C o s ≡ some s'
      → WatchedService s
      → WatchedService s'
  unfolding take notice
  take-Watched (fired unset_error) s s' h r v =
      let c = s.controller in
      let (_, same) = start_asks Q st C unset_error (record c { timer = false }) refl in
      subst WatchedService (some_inj r) (subst (Watched Q) (sym same) v)
  take-Watched (answered a) s s' h r v = subst WatchedService (some_inj r) v
  take-Watched account_late s s' h r v = subst WatchedService (some_inj r) v
  take-Watched (delivered login_id address) s s' h r v =
      subst WatchedService (some_inj r)
        (account_manager_ready-Watched login_id address s.controller v)
  take-Watched (came e) s s' h r v =
      let d = s.controller.downloads in
      let (mine, now) = both (not (is_started e)) (may_come Q e d) h in
      elim (Option-cases (handle Q st e d)) [
        | inl f ↦ absurd (none_differs (sym (ap (taken_of Q st C s) f) ∙ r))
        | inr (d', f) ↦
            subst WatchedService (some_inj (sym (ap (taken_of Q st C s) f) ∙ r))
              (handle-Watched Q st e d d' (denied (is_started e) mine) now v f)
      ]
  take-Watched (came_late e) s s' h r v =
      let d = s.controller.downloads in
      subst WatchedService
        (some_inj (sym (ap (taken_of Q st C s) (handle-after_late Q st C e d h)) ∙ r))
        (late-Watched Q st C e d h v)

  pub Run-Watched : {s : Service Q st C} → Run Q st C s → WatchedService s
  unfolding new_service new_downloads
  Run-Watched (made no_account unset_port unset_id unset_number w) = λ h. absurd cc
  Run-Watched (then_came {s} {s'} o g h r) = take-Watched o s s' h r (Run-Watched g)
