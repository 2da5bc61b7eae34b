-- ===== src/Content/Build.antt =====
-- updater/content.cpp: the constructor of `Content` and `setRevision`.
pub mod Owner
use mediaupdater.Base.{ℕ, String, ◌<>◌, Bool, true, false, List, [], ◌∷◌, if◌then◌else◌}
use mediaupdater.Qt.{Qt}
use mediaupdater.Station.{
  Station, media, media_sync, reports_dir, timetable_path, music_dir, advert_dir,
}
use mediaupdater.Content.{
  ContentType, music, advert, revision, report, ContentInfo, Content, append_info,
}
use mediaupdater.Content.Collect.{
  State, collect_content_from_file, collect_content_from_path_with_check,
  collect_content_from_dir_with_check, collect_reports,
}

-- `removeRecursively` for the directory of each entry
clear_dirs : (Q : Qt) → String → List ContentInfo → Q.World → Q.World
clear_dirs Q dest [] w = w
clear_dirs Q dest (info ∷ infos) w =
    clear_dirs Q dest infos (Q.remove_recursively (dest <> info.dir_name) w)

module _ (Q : Qt) (st : Station) where
  -- The tables that both the network and the local revision list, in order.
  unfoldable pub append_tables : Content → Content
  append_tables c =
      append_info "timetable" "vtimetable" false
        (append_info "timetable" "timetable" false (append_info "cron.d" "adverttable" false c))

  unfoldable pub set_revision : State Q st → State Q st
  unfolding append_tables clear_dirs
  set_revision (c, w) =
      if c.local
      then (
        record (append_tables c) {
          source_dir = media_sync Q st <> ("/" <> (c.box_id <> "/"));
          dest = timetable_path Q st;
        },
        w,
      )
      else (let listed =
            append_tables
              (append_info "chanels" "chanels" false (append_info "command" "command" false c)) in
          (
            record listed { source_dir = listed.box_id },
            clear_dirs Q listed.dest listed.source_list w,
          ))

  -- The fields before the body of the constructor runs.
  unfoldable pub blank : ℕ → ContentType → String → Bool → Content
  blank address type box_id local = record {
    address = address;
    source_list = [];
    standart_source_files = [];
    dest = "";
    content_type = type;
    source_dir = "";
    local = local;
    box_id = box_id;
  }

  network_dest : Content → Content
  network_dest c = record c { dest = media_sync Q st <> ("/" <> (c.box_id <> "/")) }

  local_dest : Content → Content
  local_dest c = record c { dest = media Q st "" <> "/" }

  -- The directories of local music and adverts, one name under each of two roots.
  set_dirs : String → Content → Content
  set_dirs dir c = record c {
    source_dir = media_sync Q st <> ("/" <> (c.box_id <> ("/" <> dir)));
    dest = media Q st "" <> ("/" <> dir);
  }

  -- `new Content(type, boxId, local)` at an address
  unfoldable pub new_content : ℕ → ContentType → String → Bool → Q.World → State Q st
  unfolding blank network_dest local_dest set_dirs
  new_content a report box_id local w =
      let c = blank a report box_id local in
      collect_reports Q st (record c { source_dir = reports_dir Q st <> ("/" <> box_id) }, w)
  new_content a revision box_id true w = set_revision (local_dest (blank a revision box_id true), w)
  new_content a revision box_id false w =
      set_revision (network_dest (blank a revision box_id false), w)
  new_content a music box_id false w =
      let c = network_dest (blank a music box_id false) in
      let (c', w') = collect_content_from_file Q st (c.dest <> "chanels/chanels") (c, w) in
      (record c' { dest = c'.dest <> music_dir }, w')
  new_content a advert box_id false w =
      let c = network_dest (blank a advert box_id false) in
      collect_content_from_file Q st (c.dest <> "cron.d/adverttable") (c, w)
  new_content a music box_id true w =
      let c = set_dirs music_dir (blank a music box_id true) in
      collect_content_from_path_with_check Q st c.source_dir (c, w)
  new_content a advert box_id true w =
      let c = set_dirs advert_dir (blank a advert box_id true) in
      collect_content_from_dir_with_check Q st c.source_dir (c, w)
