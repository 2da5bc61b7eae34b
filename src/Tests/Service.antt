-- ===== src/Tests/Service.antt =====
-- The service from its making to its questions to the FTP server, on a concrete input.
use mediaupdater.Base.{
  suc, ◌≤◌, ◌≡◌, refl, subst, sym, arith, ◌&&◌, Bool, true, false, List, [], ◌∷◌, some, none,
  String, Option, inl,
}
use mediaupdater.Base.Int.{pos, ℤ}
use mediaupdater.Qt.Memory.{memory, Disk, text, int}
use mediaupdater.Check.{set_rev, download_ok}
use mediaupdater.Account.{Codec, Reply, no_error, new_account}
use mediaupdater.Download.Ftp.{UrlInfo}
use mediaupdater.Download.Course.{command_finished, listed, next, walks}
use mediaupdater.Update.{Controller}
use mediaupdater.Update.Service.{
  Occurrence, fired, answered, delivered, came, Service, can_happen, take, new_service, Silently,
  Run, in_order, made,
}
use mediaupdater.Update.Service.Runs.{takes_what_happens, server_is_watched}
use mediaupdater.Update.Service.Protocol.{leads, phase_of}
use mediaupdater.Update.Service.Protocol.Laws.{take-leads}
use mediaupdater.Download.Transfer.{percent}
use mediaupdater.Update.Service.Progress.{percent-Run}
use mediaupdater.Update.Service.Silence.Rounds.{comes_back}
use mediaupdater.Update.Program.{
  Program, Call, starts, stops, happens, call, is_due, Sessions, booted, then_called,
}
use mediaupdater.Update.Program
use mediaupdater.Update.Program.Laws.{WaitsForOne, goes_on}
use mediaupdater.Tests.{station, machine}
use mediaupdater.Tests.Courses.{let_in, missing, there}

-- A codec that reads any answer as the data of one FTP server.
abbrev telling : Codec
telling = record {
  encrypt = λ s. s;
  decrypt = λ s. s;
  parse = λ s. inl (record {
    array = [];
    object = ("STHost", "ftp.example.org") ∷ ("STLogin", "box") ∷ ("STPass", "secret") ∷ [];
  });
  file = "/s/account.dat";
}

-- A station with credentials and a number, and a channel table that is whole.
abbrev installed : Disk
installed = set_rev memory station "1" "chanels" download_ok (
    machine (("/m/.sync/1/chanels/chanels", "jazz=/music/a.mp3") ∷ []) (
      (("/s/mediabox.conf", "acid"), text "box")
      ∷ (("/s/mediabox.conf", "acidh"), text "hash")
      ∷ (("/s/mediabox.conf", "mediastation/mediabox_id"), int (pos 1))
      ∷ []))

abbrev begun : Service memory station telling
begun = new_service memory station telling (new_account no_error) (pos 0) (pos 0) 0 installed

abbrev told : Reply
told = record { no_error = true; error_string = ""; bytes = "data" }

abbrev occurrences : List (Occurrence)
occurrences =
    fired no_error ∷ answered told ∷ delivered (pos 1) 0 ∷ came (command_finished let_in) ∷ []

after : List (Occurrence) → Service memory station telling → Service memory station telling
after [] s = s
after (o ∷ os) s = elim (take memory station telling o s) [ none ↦ s | some s' ↦ after os s' ]

can_follow : List (Occurrence) → Service memory station telling → Bool
can_follow [] s = true
can_follow (o ∷ os) s =
    can_happen memory station telling o s
    && (elim (take memory station telling o s) [ none ↦ true | some s' ↦ can_follow os s' ])

both : {a b : Bool} → a && b ≡ true → (a ≡ true) × (b ≡ true)
both {a} {b} h = (ground arith, ground arith)

abbrev Ordered : Service memory station telling → Type 0
Ordered s = (g : Run memory station telling s) × (in_order memory station telling g ≡ true)

-- A test where every occurrence can happen is a run in order.
after-Run :
    (os : List (Occurrence)) (s : Service memory station telling)
    → Ordered s
    → can_follow os s ≡ true
    → Ordered (after os s)
unfolding after can_follow
after-Run [] s g h = g
after-Run (o ∷ os) s (g, i) h =
    let (now, later) = both h in
    let (s', r, g', i') = takes_what_happens memory station telling o g i now in
    subst
      (λ o.
        Ordered
          (elim o as (λ x. Service memory station telling) [ none ↦ s | some s' ↦ after os s' ]))
      (sym r)
      (after-Run os s' (g', i')
        (subst (λ o. (elim o as (λ x. Bool) [ none ↦ true | some s' ↦ can_follow os s' ]) ≡ true) r
          later))

asking : Service memory station telling
asking = after occurrences begun

-- Every occurrence can happen, and in the end the server is asked for the first table.
can_all :
    (can_follow occurrences begun ≡ true)
    × (walks memory asking.controller.downloads ≡ true)
    × (can_happen memory station telling (came (listed missing)) asking ≡ true)
unfolding asking after can_follow new_service mediaupdater.Update.Service.notice take
    mediaupdater.Update.start mediaupdater.Update.start_timer mediaupdater.Account.request
    mediaupdater.Account.request_url mediaupdater.Account.new_account
    mediaupdater.Station.get_refresh_login mediaupdater.Station.get_refresh_password
    mediaupdater.Station.get_box_id mediaupdater.Qt.Memory.find mediaupdater.Qt.Memory.drop_key
    mediaupdater.Qt.Memory.digits mediaupdater.Update.account_manager_ready
    mediaupdater.Update.login_of mediaupdater.Update.host_port mediaupdater.Update.launch
    mediaupdater.Update.start_upload mediaupdater.Account.reply_finished
    mediaupdater.Account.take_answer mediaupdater.Account.take_cache mediaupdater.Account.parse_json
    mediaupdater.Account.store_members mediaupdater.Account.first_object
    mediaupdater.Account.save_cache mediaupdater.Account.set_group_key
    mediaupdater.Account.set_store_value mediaupdater.Account.full_store_key
    mediaupdater.Account.check_value mediaupdater.Manager.Files.lookup mediaupdater.LoginInfo.unset
    mediaupdater.LoginInfo.is_valid mediaupdater.LoginInfo.set_port mediaupdater.Base.Text.has_char
    mediaupdater.Heap.no_slots mediaupdater.Heap.slot mediaupdater.Heap.set_slot
    mediaupdater.Manager.set_login_info mediaupdater.Manager.set_total_size
    mediaupdater.Manager.content_files mediaupdater.Manager.server_path
    mediaupdater.Manager.with_url mediaupdater.Manager.generate_url_list
    mediaupdater.Manager.map_is_empty mediaupdater.Manager.full_clear mediaupdater.Manager.allocate
    mediaupdater.Manager.add_network_content mediaupdater.Manager.Files.insert
    mediaupdater.Manager.Files.values mediaupdater.Content.dir_name_slash
    mediaupdater.Content.source_dir_slash mediaupdater.Content.info_at
    mediaupdater.Content.append_infos mediaupdater.Content.Build.set_revision
    mediaupdater.Content.Build.new_content mediaupdater.Content.Collect.check_exist_file
    mediaupdater.Content.Collect.collect_content_from_file mediaupdater.Check.check_storage
    mediaupdater.Check.rev_storage mediaupdater.Check.check_rev mediaupdater.Check.set_rev
    mediaupdater.Check.check_file mediaupdater.Download.new_downloads
    mediaupdater.Download.set_login_info mediaupdater.Download.check_connection_settings
    mediaupdater.Download.Ftp.next_ftp_file mediaupdater.Download.Ftp.list_info
    mediaupdater.Download.Ftp.get_total_size mediaupdater.Download.Ftp.ftp_command_finished
    mediaupdater.Download.Phases.add_content mediaupdater.Download.Phases.start
    mediaupdater.Download.Phases.start_content mediaupdater.Download.Phases.next_download
    mediaupdater.Download.Course.handle mediaupdater.LoginInfo.login_info
    mediaupdater.LoginInfo.prefix_slash mediaupdater.LoginInfo.box_folder_slash
    mediaupdater.Station.advert_dir mediaupdater.Station.music_dir mediaupdater.Station.media
    mediaupdater.Station.media_sync mediaupdater.Station.set_download_timeout
    mediaupdater.Station.set_ftp_timeout mediaupdater.Station.set_buffer_size
    mediaupdater.Base.Text.split mediaupdater.Base.Text.before mediaupdater.Base.Text.after_last
    mediaupdater.Base.Text.with_slash mediaupdater.Base.string_eq mediaupdater.Base.Int.int_eq
    mediaupdater.Qt.Memory.move
can_all = (refl, refl, refl)

run : Ordered asking
unfolding asking
run =
    after-Run occurrences begun (made (new_account no_error) (pos 0) (pos 0) 0 installed, refl)
      can_all.0

server_is_watched_example :
    (asking.controller.downloads.ftp_timer ≡ true)
    × (asking.controller.downloads.ftp_timed_out ≡ false)
server_is_watched_example = server_is_watched memory station telling run.0 can_all.1

-- On to the content phase, and to the download of its file.
abbrev more : List Occurrence
more =
    came (listed missing)
    ∷ came (listed missing)
    ∷ came (listed missing)
    ∷ came (listed missing)
    ∷ came (listed missing)
    ∷ came (next (pos 1))
    ∷ came (command_finished let_in)
    ∷ came (listed there)
    ∷ came (next (pos 1))
    ∷ []

fetching : Service memory station telling
fetching = after more asking

can_more :
    (can_follow more asking ≡ true)
    × (fetching.controller.downloads.revision ≡ false)
    × (fetching.controller.downloads.reply ≡ true)
unfolding fetching asking after can_follow new_service mediaupdater.Update.Service.notice take
    mediaupdater.Update.start mediaupdater.Update.start_timer mediaupdater.Account.request
    mediaupdater.Account.request_url mediaupdater.Account.new_account
    mediaupdater.Station.get_refresh_login mediaupdater.Station.get_refresh_password
    mediaupdater.Station.get_box_id mediaupdater.Qt.Memory.find mediaupdater.Qt.Memory.drop_key
    mediaupdater.Qt.Memory.digits mediaupdater.Update.account_manager_ready
    mediaupdater.Update.login_of mediaupdater.Update.host_port mediaupdater.Update.launch
    mediaupdater.Update.start_upload mediaupdater.Account.reply_finished
    mediaupdater.Account.take_answer mediaupdater.Account.take_cache mediaupdater.Account.parse_json
    mediaupdater.Account.store_members mediaupdater.Account.first_object
    mediaupdater.Account.save_cache mediaupdater.Account.set_group_key
    mediaupdater.Account.set_store_value mediaupdater.Account.full_store_key
    mediaupdater.Account.check_value mediaupdater.Manager.Files.lookup mediaupdater.LoginInfo.unset
    mediaupdater.LoginInfo.is_valid mediaupdater.LoginInfo.set_port mediaupdater.Base.Text.has_char
    mediaupdater.Heap.no_slots mediaupdater.Heap.slot mediaupdater.Heap.set_slot
    mediaupdater.Manager.set_login_info mediaupdater.Manager.set_total_size
    mediaupdater.Manager.content_files mediaupdater.Manager.server_path
    mediaupdater.Manager.with_url mediaupdater.Manager.generate_url_list
    mediaupdater.Manager.map_is_empty mediaupdater.Manager.full_clear mediaupdater.Manager.allocate
    mediaupdater.Manager.add_network_content mediaupdater.Manager.Files.insert
    mediaupdater.Manager.Files.values mediaupdater.Content.dir_name_slash
    mediaupdater.Content.source_dir_slash mediaupdater.Content.info_at
    mediaupdater.Content.append_infos mediaupdater.Content.Build.set_revision
    mediaupdater.Content.Build.new_content mediaupdater.Content.Collect.check_exist_file
    mediaupdater.Content.Collect.collect_content_from_file mediaupdater.Check.check_storage
    mediaupdater.Check.rev_storage mediaupdater.Check.check_rev mediaupdater.Check.set_rev
    mediaupdater.Check.check_file mediaupdater.Download.new_downloads
    mediaupdater.Download.set_login_info mediaupdater.Download.check_connection_settings
    mediaupdater.Download.Ftp.next_ftp_file mediaupdater.Download.Ftp.list_info
    mediaupdater.Download.Ftp.get_total_size mediaupdater.Download.Ftp.ftp_command_finished
    mediaupdater.Download.Phases.add_content mediaupdater.Download.Phases.start
    mediaupdater.Download.Phases.start_content mediaupdater.Download.Phases.next_download
    mediaupdater.Download.Course.handle mediaupdater.LoginInfo.login_info
    mediaupdater.LoginInfo.prefix_slash mediaupdater.LoginInfo.box_folder_slash
    mediaupdater.Station.advert_dir mediaupdater.Station.music_dir mediaupdater.Station.media
    mediaupdater.Station.media_sync mediaupdater.Station.set_download_timeout
    mediaupdater.Station.set_ftp_timeout mediaupdater.Station.set_buffer_size
    mediaupdater.Base.Text.split mediaupdater.Base.Text.before mediaupdater.Base.Text.after_last
    mediaupdater.Base.Text.with_slash mediaupdater.Base.string_eq mediaupdater.Base.Int.int_eq
    mediaupdater.Qt.Memory.move mediaupdater.Content.Collect.collect_reports
    mediaupdater.Download.Phases.begin_download
can_more = (refl, refl, refl)

fetching_run : Ordered fetching
unfolding fetching
fetching_run = after-Run more asking run can_more.0

percent-Run_example :
    let d = fetching.controller.downloads in
    percent memory station (suc d.current_numbers) d.content_files_numbers ≤ 100
percent-Run_example =
    percent-Run memory station telling fetching_run.0 fetching_run.1 can_more.1 can_more.2

take-leads_example :
    (s' : Service memory station telling) × (take memory station telling
        (came (listed missing))
        asking
      ≡ some s')
    × (leads
          (came (listed missing))
          (phase_of memory station telling asking)
          (phase_of memory station telling s')
        ≡ true)
take-leads_example = take-leads memory station telling (came (listed missing)) run.0 run.1 can_all.2

comes_back_example :
    (s' : Service memory station telling) × Silently memory station telling asking s'
    × Ordered s'
    × (s'.controller.timer ≡ true)
comes_back_example = comes_back memory station telling (pos 1) 0 run.0 run.1

abbrev turned_on : Call memory station telling
turned_on = starts (new_account no_error) (pos 0) (pos 0) 0

-- The service was started, stopped and started again.
abbrev running : Program memory station telling
running = record { update_controller = some begun; world = installed }

sessions : Sessions memory station telling running
unfolding mediaupdater.Update.Program.call mediaupdater.Update.Program.start
    mediaupdater.Update.Program.stop new_service mediaupdater.Update.Program.world_of
    mediaupdater.Download.new_downloads
sessions =
    then_called turned_on
      (then_called stops (then_called turned_on (booted installed) tt refl) tt refl) tt refl

all_ordered : Program.in_order memory station telling sessions ≡ true
unfolding sessions
all_ordered = refl

at_its_timer : is_due memory station telling (happens (fired no_error)) running ≡ true
unfolding new_service
at_its_timer = refl

goes_on_example :
    (p : Program memory station telling) × (call memory station telling
        (happens (fired no_error))
        running
      ≡ some p)
    × ((g : Sessions memory station telling p) × (Program.in_order memory station telling g ≡ true))
    × WaitsForOne memory station telling p.update_controller
goes_on_example =
    goes_on memory station telling (happens (fired no_error)) sessions all_ordered at_its_timer
