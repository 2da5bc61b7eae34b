-- ===== src/Tests/Courses.antt =====
-- downloadmanager.cpp over a round, from its start to the transfer of one file, on a concrete input.
use mediaupdater.Base.{
  ◌≡◌, refl, subst, sym, arith, ◌&&◌, Bool, true, false, List, [], ◌∷◌, ◌++◌, some, none, String,
  Option,
}
use mediaupdater.Base.Int.{pos, ℤ}
use mediaupdater.Base.Lists.{length}
use mediaupdater.Qt.Memory.{memory, Disk}
use mediaupdater.Check.{set_rev, download_ok}
use mediaupdater.Download.{Downloads, Action, new_downloads}
use mediaupdater.Download.Ftp.{Finished, FtpState, connected, logged_in, UrlInfo, no_error}
use mediaupdater.Download.Phases.{next_download}
use mediaupdater.Download.Course.{Event, started, listed, command_finished, next, handle, can_come}
use mediaupdater.Download.Course.Safety.{Course, created, in_order, handlers_return}
use mediaupdater.Download.Course.Phase.{rounds, arrives, closing, content_phase_ends}
use mediaupdater.Download.Course.Round.{GoesOn, revision_phase_ends}
use mediaupdater.Tests.{station, machine, login}

-- The channel table of the box is whole, and names one file, which is not there.
abbrev tabled : Disk
tabled =
    set_rev memory station "1" "chanels" download_ok
      (machine (("/m/.sync/1/chanels/chanels", "jazz=/music/a.mp3") ∷ []) [])

abbrev made : Downloads memory
made = new_downloads memory login (pos 0) 0 tabled

abbrev pub missing : UrlInfo
missing = record { is_valid_file = false; size = pos 0 }

abbrev pub there : UrlInfo
there = record { is_valid_file = true; size = pos 100 }

abbrev pub let_in : Finished
let_in = record {
  id = pos 1;
  failed = false;
  error = no_error;
  error_string = "";
  state = logged_in;
}

-- The tables are not on the server; the file of the content phase is.
abbrev events : List Event
events =
    started login (pos 1)
    ∷ command_finished let_in
    ∷ listed missing
    ∷ listed missing
    ∷ listed missing
    ∷ listed missing
    ∷ listed missing
    ∷ next (pos 1)
    ∷ command_finished let_in
    ∷ listed there
    ∷ []

take : List Event → Downloads memory → Downloads memory
take [] d = d
take (e ∷ es) d = elim (handle memory station e d) [ none ↦ d | some d' ↦ take es d' ]

state : Downloads memory
state = take events made

can_take : List Event → Downloads memory → Bool
can_take [] d = true
can_take (e ∷ es) d =
    can_come memory e d
    && (elim (handle memory station e d) [ none ↦ true | some d' ↦ can_take es d' ])

both : {a b : Bool} → a && b ≡ true → (a ≡ true) × (b ≡ true)
both {a} {b} h = (ground arith, ground arith)

abbrev Ordered : Downloads memory → Type 0
Ordered d = (c : Course memory station d) × (in_order memory station c ≡ true)

-- A test where every event can come is a course in order.
take-Course :
    (es : List Event) (d : Downloads memory)
    → Ordered d
    → can_take es d ≡ true
    → Ordered (take es d)
unfolding take can_take
take-Course [] d c h = c
take-Course (e ∷ es) d (c, ordered) h =
    let (now, later) = both h in
    let (d', r, c', o') = handlers_return memory station e c ordered now in
    subst (λ o. Ordered (elim o as (λ x. Downloads memory) [ none ↦ d | some d' ↦ take es d' ]))
      (sym r)
      (take-Course es d' (c', o')
        (subst (λ o. (elim o as (λ x. Bool) [ none ↦ true | some d' ↦ can_take es d' ]) ≡ true) r
          later))

-- The walk of the revision phase again, where the last of the tables is on the server.
abbrev walk : List Event
walk =
    started login (pos 1)
    ∷ command_finished let_in
    ∷ listed missing
    ∷ listed missing
    ∷ listed missing
    ∷ listed missing
    ∷ listed there
    ∷ []

fetched : Downloads memory
fetched = take walk made

-- Every event of both can come, and the next thing to come is a posted step, with one download queued.
runs :
    (can_take events made ≡ true)
    × (can_take walk made ≡ true)
    × (can_come memory (next (pos 1)) state ≡ true)
    × (state.revision ≡ false)
    × (1 ≡ length state.content_files)
    × (can_come memory (next (pos 1)) fetched ≡ true)
    × (fetched.revision ≡ true)
    × (1 ≡ length fetched.content_files)
unfolding fetched state take can_take mediaupdater.Heap.no_slots mediaupdater.Heap.slot
    mediaupdater.Heap.set_slot mediaupdater.Manager.set_login_info
    mediaupdater.Manager.set_total_size mediaupdater.Manager.content_files
    mediaupdater.Manager.server_path mediaupdater.Manager.with_url
    mediaupdater.Manager.generate_url_list mediaupdater.Manager.map_is_empty
    mediaupdater.Manager.full_clear mediaupdater.Manager.allocate
    mediaupdater.Manager.add_network_content mediaupdater.Manager.Files.insert
    mediaupdater.Manager.Files.values mediaupdater.Content.dir_name_slash
    mediaupdater.Content.source_dir_slash mediaupdater.Content.info_at
    mediaupdater.Content.append_infos mediaupdater.Content.Build.set_revision
    mediaupdater.Content.Build.new_content mediaupdater.Content.Collect.check_exist_file
    mediaupdater.Content.Collect.collect_content_from_file mediaupdater.Check.check_storage
    mediaupdater.Check.rev_storage mediaupdater.Check.check_rev mediaupdater.Check.set_rev
    mediaupdater.Check.check_file mediaupdater.Download.new_downloads
    mediaupdater.Download.set_login_info mediaupdater.Download.check_connection_settings
    mediaupdater.Download.Ftp.next_ftp_file mediaupdater.Download.Ftp.list_info
    mediaupdater.Download.Ftp.get_total_size mediaupdater.Download.Ftp.ftp_command_finished
    mediaupdater.Download.Phases.add_content mediaupdater.Download.Phases.start
    mediaupdater.Download.Phases.start_content mediaupdater.Download.Phases.next_download
    mediaupdater.Download.Course.handle mediaupdater.LoginInfo.login_info
    mediaupdater.LoginInfo.prefix_slash mediaupdater.LoginInfo.box_folder_slash
    mediaupdater.Station.advert_dir mediaupdater.Station.music_dir mediaupdater.Station.media
    mediaupdater.Station.media_sync mediaupdater.Station.set_download_timeout
    mediaupdater.Station.set_ftp_timeout mediaupdater.Station.set_buffer_size
    mediaupdater.Base.Text.split mediaupdater.Base.Text.before mediaupdater.Base.Text.after_last
    mediaupdater.Base.Text.with_slash mediaupdater.Base.string_eq mediaupdater.Base.Int.int_eq
    mediaupdater.Qt.Memory.move
runs = (refl, refl, refl, refl, refl, refl, refl, refl)

course : Ordered state
unfolding state
course = take-Course events made (created login (pos 0) 0 tabled, refl) runs.0

walked : Ordered fetched
unfolding fetched
walked = take-Course walk made (created login (pos 0) 0 tabled, refl) runs.1

handlers_return_example :
    (d' : Downloads memory) × (handle memory station (next (pos 1)) state ≡ some d')
    × (c' : Course memory station d') × (in_order memory station c' ≡ true)
handlers_return_example = handlers_return memory station (next (pos 1)) course.0 course.1 runs.2

revision_phase_ends_example :
    (d' : Downloads memory) × (d'' : Downloads memory) × (rounds memory station
        (pos 1)
        (false ∷ [])
        fetched
      ≡ some d')
    × (arrives memory station (next (pos 1)) d' ≡ some d'')
    × (d''.revision ≡ false)
    × GoesOn memory d''
revision_phase_ends_example =
    revision_phase_ends memory station (pos 1) (false ∷ []) fetched walked.0 walked.1 runs.5 runs.6
      runs.7

content_phase_ends_example :
    (d' : Downloads memory) × (d'' : Downloads memory) × (rounds memory station
        (pos 1)
        (true ∷ [])
        state
      ≡ some d')
    × (arrives memory station (next (pos 1)) d' ≡ some d'')
    × (before : List Action) × (d''.trace
        ≡ before ++ closing memory station d''.login_info d''.world)
content_phase_ends_example =
    content_phase_ends memory station (pos 1) (true ∷ []) state course.0 course.1 runs.2 runs.3
      runs.4
