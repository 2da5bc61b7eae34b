-- ===== src/Content/Build/Owner.antt =====
-- A content that was just made stands at its address, under its type, and its entries point to it.
use mediaupdater.Base.{refl, String, ◌<>◌, Bool, true, false, ℕ, if_both}
use mediaupdater.Qt.{Qt}
use mediaupdater.Station.{Station, timetable_path, media_sync, reports_dir, music_dir, advert_dir}
use mediaupdater.Content.{ContentType, music, advert, revision, report, Content, append_info}
use mediaupdater.Content.Owner.{IsAt, append_info-IsAt}
use mediaupdater.Content.Collect.{State, collect_content_from_file}
use mediaupdater.Content.Collect.Owner.{
  collect_content_from_file-IsAt, collect_content_from_path_with_check-IsAt,
  collect_content_from_dir_with_check-IsAt, collect_reports-IsAt,
}
use mediaupdater.Content.Build.{
  append_tables, set_revision, blank, new_content, network_dest, local_dest, set_dirs,
}

module _ (Q : Qt) (st : Station) (a : ℕ) (t : ContentType) where
  append_tables-IsAt : (c : Content) → IsAt a t c → IsAt a t (append_tables Q st c)
  unfolding append_tables
  append_tables-IsAt c h = append_info-IsAt a t "timetable" "vtimetable" false _ (
      append_info-IsAt a t "timetable" "timetable" false _
        (append_info-IsAt a t "cron.d" "adverttable" false c h))

  -- Directories are no matter of ownership.
  moved-IsAt :
      (source_dir dest : String) (c : Content)
      → IsAt a t c
      → IsAt a t (record c { source_dir = source_dir; dest = dest })
  moved-IsAt source_dir dest c h = record {
    address_is = h.address_is;
    type_is = h.type_is;
    entries_are = h.entries_are;
  }

  set_revision-IsAt : (s : State Q st) → IsAt a t s.0 → IsAt a t (set_revision Q st s).0
  unfolding set_revision
  set_revision-IsAt (c, w) h =
      let tables = append_tables Q st c in
      let listed =
        append_tables Q st
          (append_info "chanels" "chanels" false (append_info "command" "command" false c)) in
      let both = append_tables-IsAt _ (
        append_info-IsAt a t "chanels" "chanels" false _
          (append_info-IsAt a t "command" "command" false c h)) in
      if_both (λ (r : State Q st). IsAt a t r.0) c.local _ _
        (moved-IsAt (media_sync Q st <> ("/" <> (c.box_id <> "/"))) (timetable_path Q st) tables
          (append_tables-IsAt c h))
        (moved-IsAt listed.box_id listed.dest listed both)

pub new_content-IsAt :
    (Q : Qt) (st : Station) (a : ℕ) (t : ContentType) (box_id : String) (local : Bool) (w : Q.World)
    → IsAt a t (new_content Q st a t box_id local w).0
unfolding new_content blank
new_content-IsAt Q st a report box_id local w =
    collect_reports-IsAt Q st a report
      (
        record (blank Q st a report box_id local) {
          source_dir = reports_dir Q st <> ("/" <> box_id);
        },
        w,
      )
      (record { address_is = refl; type_is = refl; entries_are = refl })
new_content-IsAt Q st a revision box_id true w =
    set_revision-IsAt Q st a revision (local_dest Q st (blank Q st a revision box_id true), w)
      (record { address_is = refl; type_is = refl; entries_are = refl })
new_content-IsAt Q st a revision box_id false w =
    set_revision-IsAt Q st a revision (network_dest Q st (blank Q st a revision box_id false), w)
      (record { address_is = refl; type_is = refl; entries_are = refl })
new_content-IsAt Q st a music box_id false w =
    let c = network_dest Q st (blank Q st a music box_id false) in
    let r = collect_content_from_file Q st (c.dest <> "chanels/chanels") (c, w) in
    moved-IsAt Q st a music r.0.source_dir (r.0.dest <> music_dir) r.0
      (collect_content_from_file-IsAt Q st a music (c.dest <> "chanels/chanels") c w refl refl)
new_content-IsAt Q st a advert box_id false w =
    let c = network_dest Q st (blank Q st a advert box_id false) in
    collect_content_from_file-IsAt Q st a advert (c.dest <> "cron.d/adverttable") c w refl refl
new_content-IsAt Q st a music box_id true w =
    let c = set_dirs Q st music_dir (blank Q st a music box_id true) in
    collect_content_from_path_with_check-IsAt Q st a music c.source_dir (c, w)
      (record { address_is = refl; type_is = refl; entries_are = refl })
new_content-IsAt Q st a advert box_id true w =
    let c = set_dirs Q st advert_dir (blank Q st a advert box_id true) in
    collect_content_from_dir_with_check-IsAt Q st a advert c.source_dir (c, w)
      (record { address_is = refl; type_is = refl; entries_are = refl })
