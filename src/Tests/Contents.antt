-- ===== src/Tests/Contents.antt =====
-- content.cpp, checkdownloadedcontent.cpp and contentmanager.cpp on concrete inputs.
use mediaupdater.Base.{
  ℕ, ◌≡◌, ◌≢◌, refl, String, ◌<>◌, Bool, true, false, List, [], ◌∷◌, ◌++◌, none, some, ne_of_test,
  string_eq, Option, arith,
}
use mediaupdater.Base.Int.{pos}
use mediaupdater.Qt.Memory.{memory, memory-IsLawful, Disk, find, int}
use mediaupdater.Base.Text.{with_slash}
use mediaupdater.Base.Lists.{all}
use mediaupdater.Content.{
  ContentType, music, advert, revision, ContentInfo, Content, destination_slash, dir_name_slash,
  info_at,
}
use mediaupdater.Check.{
  check_storage, trust, set_trust, check_file, file_path, check_rev, set_rev, download_ok,
}
use mediaupdater.Check.Files.{Files, check_all_files}
use mediaupdater.Check.Laws.{check_file_clears, check_file-set_trust}
use mediaupdater.Check.Files.Total.{check_all_files_total}
use mediaupdater.Content.Collect.Adverts.{collect_adverts-advert_names}
use mediaupdater.Content.Collect.Missing.{missing}
use mediaupdater.Content.Collect.Channels.{channel_lines-channel_entries}
use mediaupdater.Content.Collect.{channel_lines, collect_adverts}
use mediaupdater.Content.Copy.{copy_one, source_of, target_of, text_or_empty}
use mediaupdater.Content.Copy.Laws.{copy_one_arrives, copy_one_revision}
use mediaupdater.Content.Excess.{search_all, same_file, delete_unmatched, remove_all}
use mediaupdater.Content.Excess.Laws.{count, count-search_all}
use mediaupdater.Content.Excess.Deletion.{delete_unmatched_gone, delete_unmatched_music}
use mediaupdater.Heap.{ContentMap, slot}
use mediaupdater.Manager.{add_urls, new_manager, with_url, add_network_content}
use mediaupdater.Manager.Files.{lookup}
use mediaupdater.Manager.Laws.{lookup-add_urls, slot-add_network_content}
use mediaupdater.Tests.{
  tunes, partial, one_music, one_marked, both_marked, command, station, machine, marked, login,
  entry, content,
}

abbrev a : ContentInfo
a = entry "" "a.mp3"

abbrev b : ContentInfo
b = entry "" "b.mp3"

abbrev ads : Content
ads = content advert "/m/ads" false (a ∷ b ∷ [])

abbrev two_files : Disk
two_files = machine (("/m/ads/a.mp3", "A") ∷ ("/m/ads/b.mp3", "B") ∷ []) []

count-search_all_example :
    count b
      (search_all memory station ads
        (a ∷ b ∷ [])
        two_files
        (record { standart = a ∷ []; destination = "/m/ads/"; excess = [] })).excess
    ≡ 1
unfolding find search_all same_file string_eq destination_slash dir_name_slash info_at
count-search_all_example =
    count-search_all memory station ads two_files b (a ∷ b ∷ [])
      (record { standart = a ∷ []; destination = "/m/ads/"; excess = [] })

delete_unmatched_gone_example :
    memory.exists "/m/ads/b.mp3" (delete_unmatched memory station (ads, two_files)).0.1 ≡ false
unfolding find search_all same_file string_eq destination_slash dir_name_slash info_at
    delete_unmatched with_slash
delete_unmatched_gone_example =
    delete_unmatched_gone memory memory-IsLawful station ads b two_files refl (λ path v h. h)
      (omega arith)

abbrev in_dirs : Disk
in_dirs = machine (("/m/music/x/a.mp3", "A") ∷ ("/m/music/y/b.mp3", "B") ∷ []) []

delete_unmatched_music_example :
    let w' = (delete_unmatched memory station (tunes, in_dirs)).0.1 in
    (w'
      ≡ remove_all memory station "/m/music/y/"
          (entry "x" "a.mp3" ∷ entry "y" "b.mp3" ∷ [])
          in_dirs)
    × (memory.exists "/m/music/x/a.mp3" w' ≡ true)
unfolding find search_all same_file string_eq destination_slash dir_name_slash info_at
    delete_unmatched with_slash
delete_unmatched_music_example =
    delete_unmatched_music memory memory-IsLawful station tunes (entry "x" "a.mp3")
      (entry "y" "b.mp3") in_dirs refl refl refl
      (ne_of_test "/m/music/x/a.mp3" "/m/music/y/a.mp3" refl)
      (ne_of_test "/m/music/x/a.mp3" "/m/music/y/b.mp3" refl)

check_file_clears_example :
    let w' = (check_file memory station "1" (entry "x" "a.mp3") tunes partial).1 in
    (memory.exists "/m/music/x/a.mp3" w' ≡ false)
    × (trust memory station "1" (entry "x" "a.mp3") w' ≡ false)
unfolding find string_eq destination_slash dir_name_slash info_at with_slash trust check_file
    file_path check_storage mediaupdater.Station.media_sync
check_file_clears_example =
    check_file_clears memory memory-IsLawful station "1" (entry "x" "a.mp3") tunes partial refl refl
      refl (ne_of_test "/m/music/x/a.mp3" "/m/.sync/1/checkstorage" refl)

check_file-set_trust_example :
    let w' = set_trust memory station "1" (entry "x" "a.mp3") partial in
    check_file memory station "1" (entry "x" "a.mp3") tunes w' ≡ (tunes, w', true)
check_file-set_trust_example =
    check_file-set_trust memory memory-IsLawful station "1" (entry "x" "a.mp3") tunes partial

check_all_files_total_example :
    (s' : Files memory station "1") × (check_all_files memory station "1" tunes.source_list
        (one_music, one_marked)
      ≡ some (s', all (λ info. trust memory station "1" info one_marked) tunes.source_list))
unfolding mediaupdater.Heap.deref info_at mediaupdater.Base.nat_eq
check_all_files_total_example =
    check_all_files_total memory station "1" tunes.source_list one_music one_marked
      (refl, tt, tt, tt) refl

abbrev channels : List String
channels = "x=/music/x/a.mp3" ∷ "" ∷ "y=/music/y/b.mp3" ∷ []

abbrev network_tunes : Content
network_tunes = content music "/m/.sync/1/" false []

channel_lines-channel_entries_example :
    let c' = (channel_lines memory station channels (network_tunes, partial)).0 in
    (c'.standart_source_files ≡ entry "x" "a.mp3" ∷ entry "y" "b.mp3" ∷ [])
    × (c'.source_list
        ≡ missing memory station (entry "x" "a.mp3" ∷ entry "y" "b.mp3" ∷ []) network_tunes partial)
unfolding mediaupdater.Content.Collect.channel_dir mediaupdater.Content.Collect.channel_file
    mediaupdater.Base.Text.before mediaupdater.Base.Text.after_last
channel_lines-channel_entries_example =
    channel_lines-channel_entries memory station channels network_tunes partial

abbrev no_adverts : Content
no_adverts = content advert "/m/.sync/1/" false []

-- The advert table is whole; one of its lines has no name.
abbrev adverts_known : Disk
adverts_known =
    set_rev memory station "1" "adverttable" download_ok
      (machine (("/m/.sync/1/cron.d/adverttable", "a.mp3;1\n;2\nb.mp3") ∷ []) [])

collect_adverts-advert_names_example :
    let c' =
      (collect_adverts memory station "/m/.sync/1/cron.d/adverttable"
        (no_adverts, adverts_known)).0 in
    (c'.standart_source_files ≡ entry "ads" "a.mp3" ∷ entry "ads" "b.mp3" ∷ [])
    × (c'.source_list
        ≡ missing memory station
            (entry "ads" "a.mp3" ∷ entry "ads" "b.mp3" ∷ [])
            no_adverts
            adverts_known)
unfolding mediaupdater.Content.Collect.table_text find set_rev string_eq
    mediaupdater.Base.Int.int_eq check_rev mediaupdater.Check.rev_storage
    mediaupdater.Station.media_sync mediaupdater.Base.Text.after_last mediaupdater.Base.Text.split
    mediaupdater.Base.Text.before mediaupdater.Station.advert_dir
collect_adverts-advert_names_example =
    collect_adverts-advert_names memory station "/m/.sync/1/cron.d/adverttable" "a.mp3;1\n;2\nb.mp3"
      no_adverts adverts_known refl

abbrev fetched : Disk
fetched = machine (("/d/a.mp3", "A") ∷ []) (marked "a.mp3" ∷ [])

copy_one_arrives_example :
    let w' = (copy_one memory station ads a fetched).0 in
    (memory.read "/m/ads/a.mp3" w' ≡ some "A") × (trust memory station "1" a w' ≡ false)
unfolding source_of target_of mediaupdater.Content.source_dir_slash destination_slash with_slash
    info_at check_storage mediaupdater.Station.media_sync copy_one mediaupdater.Qt.Memory.move
    string_eq
copy_one_arrives_example =
    copy_one_arrives memory memory-IsLawful station ads a fetched
      (ne_of_test "/d/a.mp3" "/m/ads/a.mp3" refl)
      (ne_of_test "/m/ads/a.mp3" "/m/.sync/1/checkstorage" refl) refl

abbrev new_table : Disk
new_table =
    machine (("/d/chanels", "new") ∷ ("/m/.sync/1/chanels", "old") ∷ [])
      ((("/m/.sync/1/command/revstorage", "chanels"), int (pos 1)) ∷ [])

copy_one_revision_example :
    let info = entry "" "chanels" in
    (check_rev memory station "1" (memory.file_name (source_of command info)) new_table ≡ pos 1)
    × ((new : String) × (memory.read (source_of command info) new_table ≡ some new)
        × (new ≢ text_or_empty memory station (memory.read (target_of command info) new_table)))
unfolding copy_one find string_eq source_of mediaupdater.Content.source_dir_slash with_slash
    dir_name_slash info_at mediaupdater.Base.Int.int_eq check_rev mediaupdater.Check.rev_storage
    mediaupdater.Station.media_sync mediaupdater.Base.Text.after_last target_of destination_slash
    mediaupdater.Qt.Memory.move
copy_one_revision_example =
    copy_one_revision memory memory-IsLawful station command (entry "" "chanels") new_table refl
      refl

lookup-add_urls_example :
    lookup "a.mp3" (add_urls login tunes (entry "x" "a.mp3" ∷ entry "y" "a.mp3" ∷ []) [])
    ≡ some (with_url login tunes (entry "y" "a.mp3"))
unfolding string_eq info_at
lookup-add_urls_example =
    lookup-add_urls login tunes "a.mp3" (entry "x" "a.mp3" ∷ entry "y" "a.mp3" ∷ []) []

slot-add_network_content_example :
    slot music
      (add_network_content memory station advert
        (record (new_manager login) { content_map = one_music }, both_marked)).0.content_map
    ≡ some tunes
unfolding slot
slot-add_network_content_example =
    slot-add_network_content memory station advert music
      (record (new_manager login) { content_map = one_music }) both_marked tunes refl
