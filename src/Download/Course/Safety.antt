-- ===== src/Download/Course/Safety.antt =====
-- The download manager over any course of its calls and signals: no handler follows a null or
-- dangling pointer.
use mediaupdater.Base.{ℕ, ◌≡◌, refl, sym, subst, ◌∙◌, true, some, arith, Bool, ◌&&◌}
use mediaupdater.Base.Int.{ℤ}
use mediaupdater.Qt.{Qt}
use mediaupdater.LoginInfo.{LoginInfo}
use mediaupdater.Station.{Station}
use mediaupdater.Heap.{no_slots}
use mediaupdater.Manager.Files.{values}
use mediaupdater.Manager.{content_files, new_manager}
use mediaupdater.Download.{Downloads, set_login_info, new_downloads}
use mediaupdater.Download.Phases.{start}
use mediaupdater.Download.Course.{
  Event, started, listed, command_finished, ftp_timed_out, next, ready_read, progressed, failed,
  finished, timed_out, can_come, may_come, can_may_come, handle, Valid,
}
use mediaupdater.Download.Course.Walk.{
  list_info-Valid, ftp_command_finished-Valid, on_ftp_timeout-Valid,
}
use mediaupdater.Download.Course.Reply.{
  Returns, save_downloaded_file-Returns, download_progress-Returns, reply_error-Valid,
  download_finished-Returns, on_download_timeout-Returns,
}
use mediaupdater.Download.Course.Steps.{start-Valid, next_download-Returns}

pub some_inj : {A : Type 0} {a b : A} → some a ≡ some b → a ≡ b
some_inj {A} {a} {b} h = cc

pub ordered : {a b : Bool} → a && b ≡ true → (a ≡ true) × (b ≡ true)
ordered {a} {b} h = (ground arith, ground arith)

module _ (Q : Qt) (st : Station) where
  -- Whatever call or signal comes, when it can, its handler returns: it follows no null pointer, and
  -- none to a content that was deleted; and what it needs of the state holds again after it.
  pub handle-Returns :
      (e : Event) (d : Downloads Q)
      → Valid Q d
      → can_come Q e d ≡ true
      → Returns Q (handle Q st e d)
  unfolding handle
  handle-Returns (started l id) d v h =
      (start Q st id (set_login_info Q l d), refl, start-Valid Q st l id d (ground arith))
  handle-Returns (listed info) d v h = (_, refl, list_info-Valid Q info d h v)
  handle-Returns (command_finished f) d v h = (_, refl, ftp_command_finished-Valid Q f d h v)
  handle-Returns ftp_timed_out d v h = (_, refl, on_ftp_timeout-Valid Q d v)
  handle-Returns (next id) d v h = next_download-Returns Q st id d v h
  handle-Returns (ready_read bytes) d v h = save_downloaded_file-Returns Q st d v h bytes
  handle-Returns (progressed cb tb) d v h = download_progress-Returns Q st d v h cb tb
  handle-Returns failed d v h = (_, refl, reply_error-Valid Q st d v h)
  handle-Returns (finished no_error) d v h = download_finished-Returns Q st d v h no_error
  handle-Returns (timed_out bytes available) d v h =
      on_download_timeout-Returns Q st bytes available d v (ground arith)

  -- The states that the download manager comes to, from its making on, by what may come.
  pub data Course : Downloads Q → Type 0 where
    created :
        (l : LoginInfo) (unset : ℤ) (unset_number : ℕ) (w : Q.World)
        → Course (new_downloads Q l unset unset_number w)
    after :
        {d d' : Downloads Q} (e : Event)
        → Course d
        → may_come Q e d ≡ true
        → handle Q st e d ≡ some d'
        → Course d'

  -- Whether all of it came in order: the server answered each question once.
  abbrev pub in_order : {d : Downloads Q} → Course d → Bool
  in_order (created l unset unset_number w) = true
  in_order (after {d} {d'} e c h r) = in_order c && can_come Q e d

  pub created-Valid :
      (l : LoginInfo) (unset : ℤ) (unset_number : ℕ) (w : Q.World)
      → Valid Q (new_downloads Q l unset unset_number w)
  unfolding new_downloads content_files new_manager no_slots values
  created-Valid l unset unset_number w = record {
    sound = record { typed = (tt, tt, tt, tt); files_live = refl };
    waiting = λ h. cc;
    queued = λ h. cc;
    current = λ h. cc;
  }

  pub Course-Valid : {d : Downloads Q} → (c : Course d) → in_order c ≡ true → Valid Q d
  Course-Valid (created l unset unset_number w) o = created-Valid l unset unset_number w
  Course-Valid (after {d} {d'} e c h r) o =
      let (before, now) = ordered o in
      let (d'', r', v) = handle-Returns e d (Course-Valid c before) now in
      subst (Valid Q) (some_inj (sym r' ∙ r)) v

  -- Over any course of calls and signals, from the making of the download manager on, in which the
  -- server answers each question once (`in_order`): each handler returns whenever its call or signal
  -- comes in that order. None follows a null pointer, or a pointer to a content that was deleted, and
  -- the course goes on in order.
  pub handlers_return :
      {d : Downloads Q} (e : Event) (c : Course d)
      → in_order c ≡ true
      → can_come Q e d ≡ true
      → (d' : Downloads Q) × (handle Q st e d ≡ some d') × (c' : Course d') × (in_order c' ≡ true)
  handlers_return {d} e c o h =
      let (d', r, _) = handle-Returns e d (Course-Valid c o) h in
      (d', r, after e c (can_may_come Q e d h) r, ground (arith, o, h))
