-- ===== src/Update/Service.antt =====
-- updater/updatecontroller.cpp with all that it drives: its timer, the request of its account, the
-- queued signal of the answer, and the calls and signals of the download manager, one at a time.
pub mod Sound
pub mod Late
pub mod Watching
pub mod Laws
pub mod Runs
pub mod Progress
pub mod Silence
pub mod Protocol
use mediaupdater.Base.{
  ◌==◌, ℕ, Bool, true, false, not, ◌&&◌, ◌||◌, Option, none, some, List, if◌then◌else◌, ◌≡◌, arith,
}
use mediaupdater.Base.Int.{ℤ, ltb, int_eq}
use mediaupdater.Qt.{Qt}
use mediaupdater.LoginInfo.{unset}
use mediaupdater.Station.{Station}
use mediaupdater.Account.{Account, AccountError, Codec, Reply, reply_finished, request_timeout}
use mediaupdater.Download.{Downloads, Action, new_downloads}
use mediaupdater.Download.Course.{
  Event, listed, command_finished, ftp_timed_out, next, finished, timed_out, last_action, can_come,
  may_come, can_may_come, handle,
}
use mediaupdater.Download.Course.Safety.{ordered}
use mediaupdater.Download.Course.Await.{timers}
use mediaupdater.Download.Course.Armed.{is_ending}
use mediaupdater.Download.Course.Turn.{is_started}
use mediaupdater.Update.{Controller, start, account_manager_ready}

-- What comes to the service: its timer runs out (with what the new account's error starts as), the
-- account's reply is there or late, its queued `requestReady` is delivered (with QFtp's number of
-- the login and the address of the report content), or something comes to the download manager, an
-- answer that is not awaited included.
pub data Occurrence : Type 0 where
  fired : AccountError → Occurrence
  answered : Reply → Occurrence
  account_late : Occurrence
  delivered : ℤ → ℕ → Occurrence
  came : Event → Occurrence
  came_late : Event → Occurrence

module _ (Q : Qt) where
  -- What QFtp may signal unasked: answers after its time was out, and the ends of commands other than
  -- the login that did not fail.
  abbrev pub is_late : Event → Downloads Q → Bool
  is_late (listed info) d = d.ftp_timed_out
  is_late (command_finished f) d =
      d.ftp_timed_out || (not f.failed && not (d.login_command == f.id))
  is_late _ d = false

module _ (Q : Qt) (st : Station) (C : Codec) where
  pub record Service : Type 0 where
    pub controller : Controller Q st C
    -- the account's request is out; `requestReady` is queued
    pub asked : Bool
    pub ready : Bool

  -- What may come at all, and below what comes where the server answers each question once.
  abbrev pub may_happen : Occurrence → Service → Bool
  may_happen (fired unset) s = s.controller.timer
  may_happen (answered r) s = s.asked
  may_happen account_late s = s.asked && s.controller.account.reply
  may_happen (delivered login_id address) s = s.ready
  may_happen (came e) s = not (is_started e) && may_come Q e s.controller.downloads
  may_happen (came_late e) s = is_late Q e s.controller.downloads

  abbrev pub can_happen : Occurrence → Service → Bool
  can_happen (fired unset) s = s.controller.timer
  can_happen (answered r) s = s.asked
  can_happen account_late s = s.asked && s.controller.account.reply
  can_happen (delivered login_id address) s = s.ready
  can_happen (came e) s = not (is_started e) && can_come Q e s.controller.downloads
  can_happen (came_late e) s = is_late Q e s.controller.downloads

  pub can_may_happen :
      (o : Occurrence) (s : Service) → can_happen o s ≡ true → may_happen o s ≡ true
  can_may_happen (fired unset) s h = h
  can_may_happen (answered r) s h = h
  can_may_happen account_late s h = h
  can_may_happen (delivered login_id address) s h = h
  can_may_happen (came e) s h =
      let d = s.controller.downloads in
      let (mine, now) = ordered {a = not (is_started e)} {b = can_come Q e d} h in
      ground (arith, mine, can_may_come Q e d now)
  can_may_happen (came_late e) s h = h

  -- `startTimer` of the download manager, connected to that of the controller.
  unfoldable pub notice : List Action → Controller Q st C → Controller Q st C
  notice before c = record c { timer = c.timer || ltb (timers before) (timers c.downloads.trace) }

  abbrev pub with_machine : Q.World → Controller Q st C → Controller Q st C
  with_machine w c = let d = c.downloads in record c { downloads = record d { world = w } }

  -- The slot of the download manager that the signal is connected to.
  abbrev pub signal : Event → Service → Option Service
  signal e s =
      let c = s.controller in
      elim (handle Q st e c.downloads) [
        | none ↦ none
        | some d ↦
            some (record s { controller = notice c.downloads.trace (record c { downloads = d }) })
      ]

  unfoldable pub take : Occurrence → Service → Option Service
  unfolding notice
  take (fired unset) s =
      let (c, sent) = start Q st C unset (let c = s.controller in record c { timer = false }) in
      some (record s { controller = c; asked = elim sent [ none ↦ false | some _ ↦ true ] })
  take (answered r) s =
      let c = s.controller in
      let (a, w) = reply_finished Q C r (c.account, c.downloads.world) in
      some (record s {
        controller = with_machine w (record c { account = a });
        asked = false;
        ready = true;
      })
  take account_late s =
      let c = s.controller in
      some (record s { controller = record c { account = (request_timeout Q C c.account).0 } })
  take (delivered login_id address) s =
      let c = s.controller in
      some (record s {
        controller = notice c.downloads.trace (account_manager_ready Q st C login_id address c);
        ready = false;
      })
  take (came e) s = signal e s
  take (came_late e) s = signal e s

  -- The controller as it is made, its first start posted. There is no account before that start.
  unfoldable pub new_service : Account → ℤ → ℤ → ℕ → Q.World → Service
  new_service no_account unset_port unset_id unset_number w = record {
    controller = record {
      account = no_account;
      downloads = new_downloads Q (unset unset_port) unset_id unset_number w;
      upload = record { login_info = unset unset_port; content = none };
      timer = true;
    };
    asked = false;
    ready = false;
  }

  -- The states that the service comes to, by what may come.
  pub data Run : Service → Type 0 where
    made :
        (no_account : Account) (unset_port unset_id : ℤ) (unset_number : ℕ) (w : Q.World)
        → Run (new_service no_account unset_port unset_id unset_number w)
    then_came :
        {s s' : Service} (o : Occurrence)
        → Run s
        → may_happen o s ≡ true
        → take o s ≡ some s'
        → Run s'

  -- Whether all of it came in order: the server answered each question once.
  abbrev pub in_order : {s : Service} → Run s → Bool
  in_order (made no_account unset_port unset_id unset_number w) = true
  in_order (then_came {s} {s'} o g h r) = in_order g && can_happen o s

  -- What happens where no server ever answers: the account's reply is missing, the timers of the FTP
  -- server and of a download run out with nothing to read, what was posted or queued comes, and a
  -- reply finishes, with an error, only after it was aborted or gave an error.
  abbrev pub is_silent : Occurrence → Service → Bool
  is_silent (answered r) s = not r.no_error
  is_silent (delivered login_id address) s = true
  is_silent (came ftp_timed_out) s = true
  is_silent (came (next login_id)) s = true
  is_silent (came (timed_out bytes available)) s = not available
  is_silent (came (finished no_error)) s =
      not no_error && is_ending (last_action s.controller.downloads.trace)
  is_silent _ s = false

  -- From one state to another by such occurrences.
  pub data Silently : Service → Service → Type 0 where
    at_rest : {s : Service} → Silently s s
    then_silently :
        {s s' s'' : Service} (o : Occurrence)
        → is_silent o s ≡ true
        → can_happen o s ≡ true
        → take o s ≡ some s'
        → Silently s' s''
        → Silently s s''
