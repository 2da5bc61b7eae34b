-- ===== src/Tests/Settings.antt =====
-- The station's number, credentials and first start, the encrypted store, the events and the log, on
-- concrete inputs.
use mediaupdater.Base.{
  ◌≡◌, refl, inl, ℕ, String, ◌<>◌, Bool, true, false, List, [], ◌∷◌, none, some, arith,
}
use mediaupdater.Base.Int.{pos}
use mediaupdater.Base.Lists.{length}
use mediaupdater.Qt.Memory.{memory, memory-IsLawful, Disk, text, int}
use mediaupdater.Station.{get_box_id, get_login, get_password}
use mediaupdater.Station.Identity.{Identity, set_box_id, save_login, save_password, update}
use mediaupdater.Station.Identity.Laws.{saved_credentials, update_first_media}
use mediaupdater.Station.Identity.Windows.{registry, known, update_windows, update_windows-update}
use mediaupdater.Account.{SettingsStore, no_error, Codec, IsSound}
use mediaupdater.Account.Store.{Call, in_group, put, get, answers, answers-plain_answers}
use mediaupdater.Eventer.{Event, Format, reported, timed_out, run, new_eventer}
use mediaupdater.Eventer.Laws.{run-asks_nothing, run-connections}
use mediaupdater.Logs.Line.{Place, log_stream, log_text, log_stream-log_text}
use mediaupdater.Tests.{station, machine}

abbrev first : Identity
first = record {
  station = station;
  name_station = "NO SET";
  last_error = "Data not load";
  login = "";
  password = "";
  debug_level = pos 0;
  is_open = true;
}

-- The path of the station is known, and no media directory.
abbrev installed : Disk
installed = machine [] ((("/app/.rumediasoft/lampplayer.conf", "Path"), text "/s") ∷ [])

saved_credentials_example :
    let (s', w') = save_login memory "box" first installed in
    let (s'', w'') = save_password memory "word" s' w' in
    (get_login memory s''.station w'' ≡ "box") × (get_password memory s''.station w'' ≡ "md5-word")
saved_credentials_example =
    saved_credentials memory memory-IsLawful "box" "word" first installed refl refl

update_first_media_example :
    let (s', w', ok) = update memory "/app" first installed in
    let (s'', w'', ok') = update memory "/app" s' w' in
    (s'.station.path_to_media ≡ "") × (s''.station.path_to_media ≡ "/s/media")
unfolding mediaupdater.Qt.Memory.find mediaupdater.Base.string_eq
    mediaupdater.Station.Identity.mediabox_file
update_first_media_example =
    update_first_media memory memory-IsLawful "/app" first installed (λ file v. refl) refl refl refl

-- Both kinds of settings, with the same values.
abbrev ported : Disk
ported = machine [] (
    ((registry, "Path"), text "/s")
    ∷ (("/app/.rumediasoft/lampplayer.conf", "Path"), text "/s")
    ∷ (("/s/mediabox.conf", "mediastation/media"), text "/m")
    ∷ (("/s//app/.rumediasoft/mediabox.conf", "mediastation/media"), text "/m")
    ∷ [])

update_windows-update_example :
    let (a, ok) = update_windows memory "/app" first ported in
    let (b, w, ok') = update memory "/app" first ported in
    (known a ≡ known b) × (ok ≡ true) × (ok' ≡ true) × (w ≡ ported)
unfolding mediaupdater.Qt.Memory.find mediaupdater.Base.string_eq
    mediaupdater.Station.Identity.mediabox_file
update_windows-update_example =
    update_windows-update memory "/app" first ported (text "/m") (λ file v. refl) refl refl refl
      (λ key. refl) refl

-- A codec that reads any answer as one object.
abbrev verbatim : Codec
verbatim = record {
  encrypt = λ s. s;
  decrypt = λ s. s;
  parse = λ s. inl (record { array = []; object = ("login", s) ∷ [] });
  file = "/s/account.dat";
}

verbatim-IsSound : IsSound verbatim
verbatim-IsSound = record { decrypt-encrypt = λ s. refl }

abbrev calls : List Call
calls =
    put "a" "1"
    ∷ in_group "login"
    ∷ put "a" "2"
    ∷ get "a" ""
    ∷ get "b" "none"
    ∷ in_group ""
    ∷ get "login/a" ""
    ∷ []

answers-plain_answers_example :
    answers memory verbatim calls (record { group_key = "" }, installed) ≡ "2" ∷ "none" ∷ "2" ∷ []
unfolding mediaupdater.Account.Store.are_named mediaupdater.Base.Text.split
    mediaupdater.Account.Store.plain_answers mediaupdater.Base.string_eq mediaupdater.Qt.Memory.find
answers-plain_answers_example =
    answers-plain_answers memory memory-IsLawful verbatim verbatim-IsSound calls
      (record { group_key = "" }) installed refl

abbrev format : Format
format = record { arg = λ s t. s <> t; arg_pair = λ s t u. t <> u }

abbrev credited : Disk
credited =
    machine []
      ((("/s/mediabox.conf", "acid"), text "box") ∷ (("/s/mediabox.conf", "acidh"), text "w") ∷ [])

abbrev reports : List Event
reports = timed_out ∷ reported "{a}" "1" ∷ timed_out ∷ reported "{b}" "2" ∷ []

run-asks_nothing_example :
    (run memory format verbatim station no_error reports
      ((new_eventer memory format verbatim station no_error credited).0, credited)).1
    ≡ []
run-asks_nothing_example = run-asks_nothing memory format verbatim station no_error reports credited

run-connections_example :
    let e =
      (run memory format verbatim station no_error reports
        ((new_eventer memory format verbatim station no_error credited).0, credited)).0.0 in
    (e.connections ≡ 2) × (length e.sent ≡ 2)
run-connections_example = run-connections memory format verbatim station no_error reports credited

abbrev place : Place
place = record { app_dir = "/app"; app_name = "updater"; date = "[01.02.2020]"; stamp = "[t]: " }

log_stream-log_text_example :
    log_stream memory place ("" ∷ "file" ∷ "" ∷ "7" ∷ []) installed
    ≡ log_text memory place "file  7" installed
unfolding mediaupdater.Logs.Line.line_of
log_stream-log_text_example =
    log_stream-log_text memory place ("" ∷ "file" ∷ "" ∷ "7" ∷ []) installed
