-- ===== src/Eventer.antt =====
-- eventer/eventer.cpp and eventercontroller.cpp: what plays now and what happened, reported to a
-- server whose address the account's answer gives. The controller's two `send` queue an event each
-- for the eventer's thread, which takes them in that order.
pub mod Laws
use mediaupdater.Base.{
  ℕ, suc, zero, String, Option, none, some, List, [], ◌∷◌, if◌then◌else◌, Bool, true, false,
}
use mediaupdater.Base.Int.{ℤ}
use mediaupdater.Base.Text.{is_empty}
use mediaupdater.Qt.{Qt}
use mediaupdater.Station.{Station, get_box_id, get_login, get_password}
use mediaupdater.Account.{
  Account, AccountError, Codec, Reply, new_account, set_login, set_password, request,
  reply_finished, request_timeout, check_value,
}

-- `QString::arg` with one text and with two, and the current date and time in the two formats
-- that `monitoring` asks for.
pub record Format : Type 0 where
  pub arg : String → String → String
  pub arg_pair : String → String → String → String

pub record Clock : Type 0 where
  pub date : String
  pub time : String

pub record Eventer : Type 0 where
  pub account : Option Account
  pub server_uri : String
  -- how often `finished` of the network manager is connected to `requestFinished`; the manager is
  -- made with the first of these
  pub connections : ℕ
  -- single shots of `getServerUri` that wait
  pub timers : ℕ
  -- the addresses that were asked for, the last one first
  pub sent : List String

-- What reaches the eventer: a message of the controller, the account's reply or its time-out, and
-- the end of a single shot.
pub data Event : Type 0 where
  monitored : Clock → String → ℤ → String → ℤ → Event
  reported : String → String → Event
  answered : Reply → Event
  account_timed_out : Event
  timed_out : Event

abbrev pub one_less : ℕ → ℕ
one_less zero = zero
one_less (suc n) = n

abbrev pub asked_of : Option String → List String → List String
asked_of none urls = urls
asked_of (some url) urls = url ∷ urls

module _ (Q : Qt) (F : Format) (C : Codec) (st : Station) (unset : AccountError) where
  unfoldable pub get_uri : String → Eventer → String
  get_uri sub_uri e = F.arg_pair "%1%2" e.server_uri sub_uri

  -- `request`, with the `manager()` that it calls.
  unfoldable pub send_request : String → Eventer → Eventer
  send_request uri e = record e { connections = suc e.connections; sent = uri ∷ e.sent }

  unfoldable pub monitoring : Clock → String → ℤ → String → ℤ → Q.World → Eventer → Eventer
  unfolding get_uri send_request
  monitoring clock track type result volume w e =
      let format : String =
        "loger.php?date=%1&time=%2&mbid=%3&track=%4&mtype=%5&result=%6&volume=%7&mfz=0" in
      let box = Q.number (get_box_id Q st w) in
      let place = F.arg (F.arg (F.arg format clock.date) clock.time) box in
      let played = F.arg (F.arg place track) (Q.number type) in
      let uri = F.arg (F.arg played result) (Q.number volume) in send_request (get_uri uri e) e

  unfoldable pub eventer : String → String → Q.World → Eventer → Eventer
  unfolding get_uri send_request
  eventer message value w e =
      let json = F.arg (F.arg "{\"msg\":\"%1\",\"value\":\"%2\"}" message) value in
      let format : String = "eventer.php?mbid=%1&process=%2&message=%3" in
      let box = Q.number (get_box_id Q st w) in
      let uri = F.arg (F.arg (F.arg format box) "lampplayer_daemon") json in
      send_request (get_uri uri e) e

  -- The request of the account that goes out, if any.
  unfoldable pub get_server_uri : Q.World → Eventer → Eventer × Option String
  get_server_uri w e = elim e.account [
    | some _ ↦ (e, none)
    | none ↦
        let a =
          set_password (Q.to_base64 (Q.to_local (get_password Q st w)))
            (set_login (Q.to_base64 (Q.to_local (get_login Q st w))) (new_account unset)) in
        let (a', asked) = request Q C a in (record e { account = some a' }, asked)
  ]

  unfoldable pub data_update : Eventer → Eventer
  data_update e = elim e.account [
    | none ↦ e
    | some a ↦
        let uri = check_value Q C "ReportURI" a in
        let told = record e { server_uri = uri } in
        if is_empty uri then record told { timers = suc e.timers } else told
  ]

  unfoldable pub new_eventer : Q.World → Eventer × Option String
  unfolding get_server_uri
  new_eventer w =
      get_server_uri w
        (record { account = none; server_uri = ""; connections = 0; timers = 0; sent = [] })

  -- The account's slot, and `dataUpdate` on its `requestReady`.
  unfoldable pub answer : Reply → Eventer × Q.World → Eventer × Q.World
  unfolding data_update
  answer r (e, w) = elim e.account [
    | none ↦ (e, w)
    | some a ↦
        let (a', w') = reply_finished Q C r (a, w) in
        (data_update (record e { account = some a' }), w')
  ]

  unfoldable pub stop_account : Eventer → Eventer
  stop_account e = elim e.account [
    | none ↦ e
    | some a ↦ record e { account = some (request_timeout Q C a).0 }
  ]

  -- One event, with the request of the account that goes out, if any.
  unfoldable pub take_event : Event → Eventer × Q.World → (Eventer × Q.World) × Option String
  unfolding monitoring eventer get_server_uri answer stop_account
  take_event (monitored clock track type result volume) (e, w) =
      ((monitoring clock track type result volume w e, w), none)
  take_event (reported message value) (e, w) = ((eventer message value w e, w), none)
  take_event (answered r) s = (answer r s, none)
  take_event account_timed_out (e, w) = ((stop_account e, w), none)
  take_event timed_out (e, w) =
      let (e', asked) = get_server_uri w (record e { timers = one_less e.timers }) in
      ((e', w), asked)

  -- The events in their order: the state after them, and the requests of the account.
  unfoldable pub run : List Event → Eventer × Q.World → (Eventer × Q.World) × List String
  unfolding take_event
  run [] s = (s, [])
  run (event ∷ events) s =
      let (s', asked) = take_event event s in
      let (s'', urls) = run events s' in (s'', asked_of asked urls)
