-- ===== src/Tests/Downloads.antt =====
-- downloadmanager.cpp on concrete inputs.
use mediaupdater.Base.{
  ℕ, suc, ◌≤◌, ◌≡◌, refl, String, Bool, true, false, List, [], ◌∷◌, ◌++◌, none, some, if◌then◌else◌,
  not, ◌&&◌, ◌||◌, arith, ◌==◌, string_eq,
}
use mediaupdater.Base.Int.{pos, ◌+ℤ◌, ◌≤ℤ◌, int_eq, ℤ}
use mediaupdater.Base.Lists.{length}
use mediaupdater.Qt.Memory.{memory, memory-IsLawful, Disk, Value, int, find}
use mediaupdater.LoginInfo
use mediaupdater.Station.{buffer_size, ftp_timeout, download_timeout, set_rev_local, rev_server}
use mediaupdater.Content.{ContentInfo, Content}
use mediaupdater.Check.{
  trust, set_trust, check_rev, set_rev, status_code, download_ok, download_fail,
}
use mediaupdater.Check.Files.{check_all_files}
use mediaupdater.Heap.{ContentMap}
use mediaupdater.Manager.{ContentManager, new_manager}
use mediaupdater.Download.{
  Downloads, Action, new_downloads, check_connection_settings, send, get, list, close,
  post_next_download,
}
use mediaupdater.Download.Settings.{check_connection_settings_bounds}
use mediaupdater.Download.Ftp.{UrlInfo, list_info, next_of, on_ftp_timeout, no_error, connected}
use mediaupdater.Download.Ftp.Twice.{second_entry_posts}
use mediaupdater.Download.Ftp.Laws.{
  signals, listed, command as answered, signals-on_ftp_timeout, answers, answers-next_of, sized,
}
use mediaupdater.Download.Phases.{begin_download, take_revision, check_revision}
use mediaupdater.Download.Phases.Laws.{take_revision_whole, take_revision_partial}
use mediaupdater.Download.Transfer.{current_path, download_finished, percent}
use mediaupdater.Download.Transfer.Laws.{trust-download_finished, check_rev-download_finished}
use mediaupdater.Download.Transfer.Progress.{begin_download_bytes}
use mediaupdater.Tests.{
  station, machine, marked, login, entry, tunes, partial, one_music, one_marked, second_cleared,
  command,
}

abbrev fresh : Disk → Downloads memory
fresh w = new_downloads memory login (pos 0) 0 w

abbrev holding : ContentMap → List (String × ContentInfo) → ContentManager
holding m files = record (new_manager login) { content_map = m; content_files = files }

abbrev slashed : ContentMap
slashed = record one_music { of_music = some (record tunes { dest = "/m/music/" }) }

abbrev tune : ContentInfo
tune = entry "x" "a.mp3"

-- The first of two files of the content phase is under way.
abbrev under_way : Downloads memory
under_way = record (fresh partial) {
  manager = holding one_music [];
  revision = false;
  current = tune;
  reply = true;
  content_files_numbers = 2;
}

abbrev arrived : Downloads memory
arrived = record under_way {
  manager = holding slashed [];
  world = set_trust memory station "1" tune partial;
  reply = false;
  current_numbers = 1;
  trace = send "{process_update}" "1" ∷ post_next_download ∷ [];
}

trust-download_finished_example : trust memory station "1" tune arrived.world ≡ true
unfolding current_path mediaupdater.Heap.deref mediaupdater.Content.info_at mediaupdater.Base.nat_eq
    mediaupdater.Heap.put_back mediaupdater.Content.destination_slash mediaupdater.Check.file_path
    mediaupdater.Base.Text.with_slash mediaupdater.Content.dir_name_slash download_finished find
    new_downloads string_eq LoginInfo.login_info
trust-download_finished_example =
    trust-download_finished memory memory-IsLawful station true under_way
      (record under_way { manager = holding slashed [] }) arrived "/m/music/x/" "/m/music/x/a.mp3"
      refl refl refl

-- The table of the channels is under way, and times out.
abbrev table_late : Downloads memory
table_late = record (fresh (machine (("/m/.sync/1/chanels", "x") ∷ []) [])) {
  manager =
      holding
        (record { of_music = none; of_advert = none; of_revision = some command; of_report = none })
        [];
  current = entry "" "chanels";
  reply = true;
  download_timed_out = true;
}

abbrev table_slashed : ContentManager
table_slashed =
    holding
      (record {
        of_music = none;
        of_advert = none;
        of_revision = some (record command { dest = "/m/.sync/1/" });
        of_report = none;
      })
      []

abbrev table_failed : Downloads memory
table_failed = record table_late {
  manager = table_slashed;
  world = set_rev memory station "1" "chanels" download_fail table_late.world;
  reply = false;
  trace = post_next_download ∷ [];
}

check_rev-download_finished_example :
    check_rev memory station "1" "chanels" table_failed.world ≡ pos 2
unfolding new_downloads current_path mediaupdater.Heap.deref mediaupdater.Content.info_at
    mediaupdater.Base.nat_eq mediaupdater.Heap.put_back mediaupdater.Content.destination_slash
    mediaupdater.Check.file_path mediaupdater.Base.Text.with_slash
    mediaupdater.Content.dir_name_slash download_finished find string_eq LoginInfo.login_info
check_rev-download_finished_example =
    check_rev-download_finished memory memory-IsLawful station true table_late
      (record table_late { manager = table_slashed }) table_failed "/m/.sync/1/"
      "/m/.sync/1/chanels" refl refl refl

check_connection_settings_bounds_example :
    let d' = check_connection_settings memory station (fresh partial) in
    (pos 0 ≤ℤ d'.buffer) × (pos 1000 ≤ℤ d'.ftp_timer_wait) × (pos 1000 ≤ℤ d'.download_wait)
unfolding new_downloads
check_connection_settings_bounds_example =
    check_connection_settings_bounds memory station (fresh partial) (omega arith) (omega arith)

abbrev on_server : List ContentInfo
on_server =
    record tune { server_path = "data/a.mp3" } ∷ record tune { server_path = "data/b.mp3" } ∷ []

abbrev sizes : List ℤ
sizes = pos 5 ∷ pos 7 ∷ []

answers-next_of_example :
    let d' = answers memory sizes (next_of memory on_server (fresh partial)) in
    (d'.content_files ≡ [] ++ sized memory on_server sizes)
    × (d'.content_files_numbers ≡ length d'.content_files)
    × (d'.ftp_content_files ≡ [])
    × ((before : List Action) × (d'.trace ≡ before ++ (close ∷ post_next_download ∷ [])))
unfolding new_downloads
answers-next_of_example =
    answers-next_of memory on_server sizes (fresh partial) (refl, (refl, tt)) refl refl

abbrev five_bytes : UrlInfo
five_bytes = record { is_valid_file = true; size = pos 5 }

abbrev asked_last : Downloads memory
asked_last = record (fresh partial) { ftp_content_files = []; ftp_timed_out = false }

second_entry_posts_example :
    (list_info memory five_bytes (list_info memory five_bytes asked_last)).trace
    ≡ asked_last.trace ++ (close ∷ post_next_download ∷ close ∷ post_next_download ∷ [])
second_entry_posts_example = second_entry_posts memory five_bytes five_bytes asked_last refl refl

signals-on_ftp_timeout_example :
    let d = on_ftp_timeout memory (fresh partial) in
    signals memory
      (listed (record { is_valid_file = true; size = pos 5 })
        ∷ answered (record {
          id = pos 1;
          failed = true;
          error = no_error;
          error_string = "";
          state = connected;
        })
        ∷ [])
      d
    ≡ d
signals-on_ftp_timeout_example =
    signals-on_ftp_timeout memory
      (listed (record { is_valid_file = true; size = pos 5 })
        ∷ answered (record {
          id = pos 1;
          failed = true;
          error = no_error;
          error_string = "";
          state = connected;
        })
        ∷ [])
      (fresh partial)

abbrev waiting : Downloads memory
waiting = record (fresh partial) {
  revision = false;
  content_files = tune ∷ [];
  content_files_numbers = 1;
  current_bytes = pos 10;
}

abbrev received : Downloads memory
received = record (begin_download memory station tune [] waiting) {
  current_bytes = pos 11;
  last_bytes = pos 1;
  current = record tune { size_current = pos 1 };
}

begin_download_bytes_example : received.current_bytes ≡ pos 10 +ℤ pos 1
unfolding mediaupdater.Download.Transfer.download_progress begin_download
begin_download_bytes_example =
    begin_download_bytes memory station ((pos 1, pos 2) ∷ []) tune [] waiting received refl refl

abbrev revisions : List ((String × String) × Value)
revisions = (("/m/.sync/1/command/command", "/revision"), int (pos 5)) ∷ []

abbrev phase_done : Disk → Downloads memory
phase_done w = record (fresh w) {
  revision = false;
  manager = holding one_music (("a.mp3", tune) ∷ ("b.mp3", entry "y" "b.mp3") ∷ []);
}

abbrev all_whole : Disk
all_whole = machine [] (marked "x/a.mp3" ∷ marked "y/b.mp3" ∷ revisions)

take_revision_whole_example :
    set_rev_local memory station (pos 5) "1" all_whole
    ≡ set_rev_local memory station (rev_server memory station "1" all_whole) "1" all_whole
unfolding take_revision check_all_files mediaupdater.Manager.content_files
    mediaupdater.Manager.Files.values mediaupdater.Heap.deref mediaupdater.Content.info_at
    mediaupdater.Base.nat_eq mediaupdater.Check.check_file find new_downloads string_eq
    mediaupdater.Check.check_storage mediaupdater.Station.media_sync LoginInfo.login_info
    mediaupdater.Heap.put_back set_rev_local check_revision new_manager int_eq
    mediaupdater.Base.Text.with_slash mediaupdater.Content.dir_name_slash
    mediaupdater.Station.sync_file rev_server mediaupdater.Station.revision_in
    mediaupdater.Station.rev_local mediaupdater.Station.media trust mediaupdater.Check.mark_key
take_revision_whole_example =
    take_revision_whole memory station (phase_done all_whole)
      (record (phase_done all_whole) { world = set_rev_local memory station (pos 5) "1" all_whole })
      refl refl

take_revision_partial_example :
    check_all_files memory station "1" (tune ∷ entry "y" "b.mp3" ∷ []) (one_music, one_marked)
    ≡ some (second_cleared, false)
unfolding take_revision check_all_files mediaupdater.Manager.content_files
    mediaupdater.Manager.Files.values mediaupdater.Heap.deref mediaupdater.Content.info_at
    mediaupdater.Base.nat_eq mediaupdater.Check.check_file find new_downloads string_eq
    mediaupdater.Check.check_storage mediaupdater.Station.media_sync LoginInfo.login_info
    mediaupdater.Heap.put_back set_rev_local check_revision new_manager int_eq
    mediaupdater.Base.Text.with_slash mediaupdater.Content.dir_name_slash
    mediaupdater.Station.sync_file rev_server mediaupdater.Station.revision_in
    mediaupdater.Station.rev_local mediaupdater.Station.media trust mediaupdater.Check.mark_key
    mediaupdater.Qt.Memory.drop_key
take_revision_partial_example =
    take_revision_partial memory station (phase_done one_marked)
      (record (phase_done one_marked) {
        manager = holding second_cleared.0 (("a.mp3", tune) ∷ ("b.mp3", entry "y" "b.mp3") ∷ []);
        world = second_cleared.1;
      })
      refl refl
