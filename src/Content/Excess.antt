-- ===== src/Content/Excess.antt =====
-- updater/content.cpp: `deleteExcessFiles` and `sync`.
pub mod Laws
pub mod Deletion
use mediaupdater.Base.{
  String, ◌<>◌, Bool, true, false, not, ◌&&◌, ◌||◌, Option, none, some, List, [], ◌∷◌, ◌++◌,
  if◌then◌else◌, ◌==◌, string_eq,
}
use mediaupdater.Base.Int.{ℤ, int_eq}
use mediaupdater.Base.Lists.{is_empty}
use mediaupdater.Qt.{Qt}
use mediaupdater.Station.{Station, media_sync}
use mediaupdater.Content.{
  ContentType, music, advert, revision, report, is_music, ContentInfo, Content, dir_name_slash,
  source_dir_slash, destination_slash,
}
use mediaupdater.Content.Collect.{
  State, collect_content_from_file, collect_content_from_path, collect_content_from_dir,
}
use mediaupdater.Content.Copy.{copy_to_destination}
use mediaupdater.Check.{default, download_ok, status_code, check_rev}

-- Two entries for one file: directory and name agree.
unfoldable pub same_file : ContentInfo → ContentInfo → Bool
same_file a b = a.dir_name == b.dir_name && a.file_name == b.file_name

-- The inner loop: the standard files without the first that agrees, or `none`.
unfoldable pub take_match : ContentInfo → List ContentInfo → Option (List ContentInfo)
unfolding same_file
take_match source [] = none
take_match source (k ∷ ks) =
    let rest = take_match source ks in
    if same_file source k then some ks else elim rest [ none ↦ none | some ks' ↦ some (k ∷ ks') ]

module _ (Q : Qt) (st : Station) where
  -- The state of the outer loop: the standard files left, `destination`, and the files to delete.
  pub record Search : Type 0 where
    pub standart : List ContentInfo
    pub destination : String
    pub excess : List ContentInfo

  -- An entry with no match: for music the directory is set anew, and stays set.
  unfoldable pub unmatched : Content → ContentInfo → Q.World → Search → Search
  unmatched c source w s =
      let dir =
        if is_music c.content_type
        then (destination_slash c).1 <> dir_name_slash source
        else s.destination in
      record s {
        destination = dir;
        excess =
            if Q.exists (dir <> source.file_name) w then s.excess ++ (source ∷ []) else s.excess;
      }

  unfoldable pub search_one : Content → ContentInfo → Q.World → Search → Search
  unfolding unmatched
  search_one c source w s = elim (take_match source s.standart) [
    | some left ↦ record s { standart = left }
    | none ↦ unmatched c source w s
  ]

  unfoldable pub search_all : Content → List ContentInfo → Q.World → Search → Search
  unfolding search_one
  search_all c [] w s = s
  search_all c (source ∷ sources) w s = search_all c sources w (search_one c source w s)

  unfoldable pub remove_all : String → List ContentInfo → Q.World → Q.World
  remove_all destination [] w = w
  remove_all destination (info ∷ infos) w =
      remove_all destination infos (Q.remove_file (destination <> info.file_name) w).0

  -- From `QString destination = destinationSlash()` on.
  unfoldable pub delete_unmatched : State Q st → State Q st × Bool
  unfolding search_all remove_all
  delete_unmatched (c, w) =
      let (c', dest) = destination_slash c in
      let found =
        search_all c' c'.source_list w
          (record { standart = c'.standart_source_files; destination = dest; excess = [] }) in
      let c'' = record c' { standart_source_files = found.standart } in
      if is_empty found.excess
      then ((c'', w), false)
      else ((c'', remove_all found.destination found.excess w), true)

  -- The table that lists the standard files is there and recorded as whole.
  unfoldable pub table_ready : String → String → Q.World → Bool
  table_ready box_id table w =
      Q.exists table w && check_rev Q st box_id (Q.file_name table) w == status_code download_ok

  -- The entries of a revision whose file the server no longer lists lose the current file too.
  revision_gone : Content → String → Q.World → Bool
  revision_gone c source w =
      not (Q.exists source w)
      && check_rev Q st c.box_id (Q.file_name source) w == status_code default

  remove_target : ContentInfo → State Q st → State Q st
  remove_target info (c, w) =
      let (c', dest) = destination_slash c in
      let target = dest <> info.file_name in
      (c', if Q.exists target w then (Q.remove_file target w).0 else w)

  unfoldable pub remove_revisions : List ContentInfo → State Q st → State Q st
  unfolding revision_gone remove_target
  remove_revisions [] s = s
  remove_revisions (info ∷ infos) (c, w) =
      let source = source_dir_slash c <> (dir_name_slash info <> info.file_name) in
      remove_revisions infos
        (if revision_gone c source w then remove_target info (c, w) else (c, w))

  unfoldable pub box_path : Content → String → String
  box_path c file = media_sync Q st <> ("/" <> (c.box_id <> ("/" <> file)))

  -- The branches by type.
  excess_of_type : ContentType → State Q st → State Q st × Bool
  unfolding table_ready remove_revisions box_path delete_unmatched
  excess_of_type music (c, w) =
      let table = box_path c "chanels/chanels" in
      let (c', w') = collect_content_from_file Q st table (c, w) in
      let deleted = delete_unmatched (collect_content_from_path Q st c'.dest (c', w')) in
      if table_ready c.box_id table w then deleted else ((c, w), false)
  excess_of_type advert (c, w) =
      let table = box_path c "cron.d/adverttable" in
      let (c', w') = collect_content_from_file Q st table (c, w) in
      let deleted = delete_unmatched (collect_content_from_dir Q st c'.dest (c', w')) in
      if table_ready c.box_id table w then deleted else ((c, w), false)
  excess_of_type revision (c, w) = (remove_revisions c.source_list (c, w), false)
  excess_of_type report (c, w) = ((c, w), false)

  unfoldable pub delete_excess_files : State Q st → State Q st × Bool
  unfolding excess_of_type
  delete_excess_files (c, w) =
      let cleared = excess_of_type c.content_type (record c { standart_source_files = [] }, w) in
      if Q.exists (box_path c "command/command") w then cleared else ((c, w), false)

  -- The deletions do not count for the result.
  unfoldable pub sync : State Q st → State Q st × Bool
  sync s = let (s', result) = copy_to_destination Q st s in ((delete_excess_files s').0, result)
