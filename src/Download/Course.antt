-- ===== src/Download/Course.antt =====
-- updater/downloadmanager.cpp as a whole: the calls and signals that it receives, when the outside
-- gives each of them, and what the state then has to meet.
pub mod Walk
pub mod Path
pub mod Reply
pub mod Steps
pub mod Safety
pub mod Phase
pub mod Round
pub mod Await
pub mod Turn
pub mod Watch
pub mod Mode
pub mod Tally
pub mod Armed
use mediaupdater.Base.{
  ℕ, ◌≡◌, refl, String, Bool, true, false, not, ◌&&◌, ◌||◌, Option, none, some, List, [], ◌∷◌, ◌++◌,
  ◌⊎◌, inl, inr, Bool-cases, arith,
}
use mediaupdater.Base.Int.{ℤ}
use mediaupdater.Base.Lists.{all}
use mediaupdater.Qt.{Qt}
use mediaupdater.LoginInfo.{LoginInfo}
use mediaupdater.Station.{Station}
use mediaupdater.Content.{ContentInfo}
use mediaupdater.Heap.Live.{is_live}
use mediaupdater.Manager.Live.{IsSound}
use mediaupdater.Download.{Downloads, Action, login, list, post_next_download, set_login_info}
use mediaupdater.Download.Ftp.{Finished, UrlInfo, list_info, ftp_command_finished, on_ftp_timeout}
use mediaupdater.Download.Phases.{start, next_download}
use mediaupdater.Download.Transfer.{
  save_downloaded_file, download_finished, download_progress, reply_error, on_download_timeout,
}

-- A round of the update controller, an answer of QFtp, a posted call, or a signal of the reply.
pub data Event : Type 0 where
  started : LoginInfo → ℤ → Event
  listed : UrlInfo → Event
  command_finished : Finished → Event
  ftp_timed_out : Event
  next : ℤ → Event
  ready_read : String → Event
  progressed : ℤ → ℤ → Event
  failed : Event
  finished : Bool → Event
  timed_out : String → Bool → Event

abbrev pub last_action : List Action → Option Action
last_action [] = none
last_action (a ∷ []) = some a
last_action (a ∷ b ∷ rest) = last_action (b ∷ rest)

abbrev pub is_list : Option Action → Bool
is_list (some (list path)) = true
is_list _ = false

abbrev pub is_login : Option Action → Bool
is_login (some (login user password)) = true
is_login _ = false

abbrev pub is_post : Option Action → Bool
is_post (some post_next_download) = true
is_post _ = false

abbrev pub ever : (Option Action → Bool) → List Action → Bool
ever f [] = false
ever f (a ∷ rest) = f (some a) || ever f rest

-- What the last action is, some action is.
last_ever :
    (f : Option Action → Bool)
    → f none ≡ false
    → (actions : List Action) → f (last_action actions) ≡ true
    → ever f actions ≡ true
last_ever f z [] h = absurd cc
last_ever f z (a ∷ []) h = ground (arith, h)
last_ever f z (a ∷ b ∷ rest) h = ground (arith, last_ever f z (b ∷ rest) h)

either : {a b : Bool} → a || b ≡ true → (a ≡ true) ⊎ (b ≡ true)
either {a} {b} h = elim (Bool-cases a) [ inl y ↦ inl y | inr n ↦ inr (ground arith) ]

module _ (Q : Qt) where
  -- The last action asked the server for a file, or for an answer of any kind, or posted the step to
  -- the next download.
  abbrev pub asks : Downloads Q → Bool
  asks d = is_list (last_action d.trace)

  abbrev pub walks : Downloads Q → Bool
  walks d = is_login (last_action d.trace) || is_list (last_action d.trace)

  abbrev pub posted : Downloads Q → Bool
  posted d = is_post (last_action d.trace)

  -- What QFtp and Qt may signal at all: an entry where the server was ever asked for a file, as QFtp
  -- gives one for each line of the answer; the end of a command, failed or not, where any was given; a
  -- posted call where one was posted; the signals of a reply while there is one, and that of a timer
  -- while it runs. A round starts when there is no reply.
  abbrev pub may_come : Event → Downloads Q → Bool
  may_come (started l id) d = not d.reply
  may_come (listed info) d = ever is_list d.trace
  may_come (command_finished f) d = ever is_login d.trace || ever is_list d.trace
  may_come ftp_timed_out d = d.ftp_timer
  may_come (next id) d = ever is_post d.trace
  may_come (timed_out bytes available) d = d.reply && d.download_timer
  may_come _ d = d.reply

  -- What comes where the server answers each question once: an entry, or the end of a command, answers
  -- what was asked last and is not answered yet, so that a posted call is made once as well. This is
  -- an assumption on the server: for the path of a file it sends at most one line, and no command
  -- fails after its line.
  abbrev pub can_come : Event → Downloads Q → Bool
  can_come (started l id) d = not d.reply
  can_come (listed info) d = asks d
  can_come (command_finished f) d = walks d
  can_come ftp_timed_out d = walks d && d.ftp_timer
  can_come (next id) d = posted d && not d.reply
  can_come (timed_out bytes available) d = d.reply && d.download_timer
  can_come _ d = d.reply

  -- What comes in that order is among what may come.
  pub can_may_come : (e : Event) (d : Downloads Q) → can_come e d ≡ true → may_come e d ≡ true
  can_may_come (started l id) d h = h
  can_may_come (listed info) d h = last_ever is_list refl d.trace h
  can_may_come (command_finished f) d h = elim (either h) [
    | inl l ↦ ground (arith, last_ever is_login refl d.trace l)
    | inr l ↦ ground (arith, last_ever is_list refl d.trace l)
  ]
  can_may_come ftp_timed_out d h = ground (arith, h)
  can_may_come (next id) d h = last_ever is_post refl d.trace (ground (arith, h))
  can_may_come (ready_read bytes) d h = h
  can_may_come (progressed cb tb) d h = h
  can_may_come failed d h = h
  can_may_come (finished no_error) d h = h
  can_may_come (timed_out bytes available) d h = h

  pub record Valid (d : Downloads Q) : Type 0 where
    pub sound : IsSound d.manager
    -- the files to ask for, while the server is asked
    pub waiting : walks d ≡ true → all (is_live d.manager.content_map) d.ftp_content_files ≡ true
    -- the files to download
    pub queued :
        walks d || (posted d || d.reply) ≡ true
        → all (is_live d.manager.content_map) d.content_files ≡ true
    -- the file that is asked for or downloaded
    pub current : asks d || d.reply ≡ true → is_live d.manager.content_map d.current ≡ true

module _ (Q : Qt) (st : Station) where
  -- The slot that the call or signal is connected to.
  unfoldable pub handle : Event → Downloads Q → Option (Downloads Q)
  handle (started l id) d = some (start Q st id (set_login_info Q l d))
  handle (listed info) d = some (list_info Q info d)
  handle (command_finished f) d = some (ftp_command_finished Q f d)
  handle ftp_timed_out d = some (on_ftp_timeout Q d)
  handle (next id) d = next_download Q st id d
  handle (ready_read bytes) d = save_downloaded_file Q st bytes d
  handle (progressed cb tb) d = download_progress Q st cb tb d
  handle failed d = some (reply_error Q st d)
  handle (finished no_error) d = download_finished Q st no_error d
  handle (timed_out bytes available) d = on_download_timeout Q st bytes available d
