-- ===== src/Eventer/Laws.antt =====
-- Eventer: how often it asks for its server, and what its messages leave behind.
use mediaupdater.Base.{
  ◌≡◌, refl, ℕ, zero, ◌+◌, Option-cases, inl, inr, none, some, List, [], ◌∷◌, arith,
}
use mediaupdater.Base.Lists.{length}
use mediaupdater.Qt.{Qt}
use mediaupdater.Station.{Station}
use mediaupdater.Account.{Account, AccountError, Codec, Reply, reply_finished}
use mediaupdater.Eventer.{
  Eventer, Event, Format, monitored, reported, answered, account_timed_out, timed_out, take_event,
  run, new_eventer, monitoring, eventer, send_request, get_server_uri, answer, stop_account,
  data_update,
}

-- The events that carry a message.
abbrev count : Event → ℕ
count (monitored _ _ _ _ _) = 1
count (reported _ _) = 1
count _ = 0

abbrev messages : List Event → ℕ
messages [] = zero
messages (event ∷ events) = count event + messages events

module _ (Q : Qt) (F : Format) (C : Codec) (st : Station) (unset : AccountError) where
  data_update-account : (e : Eventer) → (data_update Q F C st unset e).account ≡ e.account
  unfolding data_update
  data_update-account e = ground arith

  -- An event asks nothing where the account is made, which it stays.
  take_event-account :
      (event : Event) (s : Eventer × Q.World) (a : Account)
      → s.0.account ≡ some a
      → let (s', asked) = take_event Q F C st unset event s in
        ((a' : Account) × (s'.0.account ≡ some a')) × (asked ≡ none)
  unfolding take_event monitoring eventer send_request get_server_uri answer stop_account
  take_event-account (monitored clock track type result volume) s a h = ((a, h), refl)
  take_event-account (reported message value) s a h = ((a, h), refl)
  take_event-account (answered r) s a h =
      let a' = (reply_finished Q C r (a, s.1)).0 in
      rw h ((a', data_update-account (record s.0 { account = some a' })), refl)
  take_event-account account_timed_out s a h = rw h ((_, refl), refl)
  take_event-account timed_out s a h = rw h ((a, refl), refl)

  run-account :
      (events : List Event) (s : Eventer × Q.World) (a : Account)
      → s.0.account ≡ some a
      → (run Q F C st unset events s).1 ≡ []
  unfolding run
  run-account [] s a h = refl
  run-account (event ∷ events) s a h =
      let ((a', h'), quiet) = take_event-account event s a h in
      rw (quiet, run-account events (take_event Q F C st unset event s).0 a' h') refl

  -- After the constructor no course of events makes the account ask again, not even the ends of the
  -- single shots that are to repeat its request.
  pub run-asks_nothing :
      (events : List Event) (w : Q.World)
      → (run Q F C st unset events ((new_eventer Q F C st unset w).0, w)).1 ≡ []
  unfolding new_eventer get_server_uri
  run-asks_nothing events w = run-account events ((new_eventer Q F C st unset w).0, w) _ refl

  data_update-counts :
      (e : Eventer)
      → ((data_update Q F C st unset e).connections ≡ e.connections)
        × ((data_update Q F C st unset e).sent ≡ e.sent)
  unfolding data_update
  data_update-counts e = ground arith

  answer-counts :
      (r : Reply) (e : Eventer) (w : Q.World)
      → let e' = (answer Q F C st unset r (e, w)).0 in
        (e'.connections ≡ e.connections) × (e'.sent ≡ e.sent)
  unfolding answer
  answer-counts r e w = elim (Option-cases e.account) [
    | inl h ↦ rw h (refl, refl)
    | inr (a, h) ↦
        rw h (data_update-counts (record e { account = some (reply_finished Q C r (a, w)).0 }))
  ]

  take_event-counts :
      (event : Event) (s : Eventer × Q.World)
      → let e = (take_event Q F C st unset event s).0.0 in
        (e.connections ≡ count event + s.0.connections)
        × (length e.sent ≡ count event + length s.0.sent)
  unfolding take_event monitoring eventer send_request get_server_uri stop_account
  take_event-counts (monitored clock track type result volume) s = (omega arith, omega arith)
  take_event-counts (reported message value) s = (omega arith, omega arith)
  take_event-counts (answered r) (e, w) =
      let (c, l) = answer-counts r e w in (rw c (omega arith), rw l (omega arith))
  take_event-counts account_timed_out (e, w) = ground arith
  take_event-counts timed_out (e, w) = ground arith

  run-counts :
      (events : List Event) (s : Eventer × Q.World)
      → let e = (run Q F C st unset events s).0.0 in
        (e.connections ≡ messages events + s.0.connections)
        × (length e.sent ≡ messages events + length s.0.sent)
  unfolding run
  run-counts [] s = (omega arith, omega arith)
  run-counts (event ∷ events) s =
      let (s', asked) = take_event Q F C st unset event s in
      let (c, l) = run-counts events s' in
      let (c', l') = take_event-counts event s in (omega arith, omega arith)

  -- Every message connects the network manager once more: after a course of events the connections
  -- are as many as the messages in it, and as the requests that were sent.
  pub run-connections :
      (events : List Event) (w : Q.World)
      → let e = (run Q F C st unset events ((new_eventer Q F C st unset w).0, w)).0.0 in
        (e.connections ≡ messages events) × (length e.sent ≡ messages events)
  unfolding new_eventer get_server_uri
  run-connections events w =
      let (c, l) = run-counts events ((new_eventer Q F C st unset w).0, w) in
      (omega arith, omega arith)
