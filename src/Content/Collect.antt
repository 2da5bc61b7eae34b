-- ===== src/Content/Collect.antt =====
-- updater/content.cpp: which files a content consists of. The lists come from the channel and
-- advert tables or from directories; every check may clear a file away, so the machine is passed on.
pub mod Laws
pub mod Owner
pub mod Missing
pub mod Channels
pub mod Adverts
use mediaupdater.Base.{
  String, ◌<>◌, Bool, true, false, not, ◌&&◌, ◌||◌, Option, none, some, List, [], ◌∷◌, ◌++◌,
  if◌then◌else◌, ◌==◌, ℕ,
}
use mediaupdater.Base.Int.{ℤ, int_eq}
use mediaupdater.Base.Text.{is_empty, split, before, after_last}
use mediaupdater.Qt.{Qt}
use mediaupdater.Station.{
  Station, media, media_sync, reports_dir, timetable_path, music_dir, advert_dir,
}
use mediaupdater.Content.{
  ContentType, music, advert, revision, report, is_music, ContentInfo, Content, info_of,
  append_info, append_infos,
}
use mediaupdater.Check.{CheckStatus, download_ok, status_code, check_rev, check_file}

-- `localDir` of `checkExistFile`; the placeholder stays for the other types
unfoldable pub local_dir : ContentType → String
local_dir music = "/" <> (music_dir <> "/")
local_dir advert = "/"
local_dir _ = "/%1/"

-- One line of the channel table: the directory before `=`, and the file behind the last `/`.
unfoldable pub channel_dir : String → String
channel_dir line = before b'=' line

unfoldable pub channel_file : String → String
channel_file line = after_last b'/' line

module _ (Q : Qt) (st : Station) where
  abbrev pub State : Type 0
  State = Content × Q.World

  unfoldable pub check_exist_file : String → String → State → State × Bool
  unfolding local_dir
  check_exist_file dir file (c, w) =
      let path = media Q st "" <> (local_dir c.content_type <> (dir <> ("/" <> file))) in
      let (c', w', ok) = check_file Q st c.box_id (info_of c dir file) c w in
      ((c', w'), ok || Q.exists path w')

  -- The loop over the advert table: the files that are missing, and all of them.
  unfoldable pub advert_lines : String → List String → State → State × List String × List String
  advert_lines dir [] s = (s, [], [])
  advert_lines dir (line ∷ lines) s =
      let name = before b';' line in
      let (s', found) = if is_empty name then (s, true) else check_exist_file dir name s in
      let (t, missing, every) = advert_lines dir lines s' in
      (
        t,
        (if found then missing else name ∷ missing),
        if is_empty name then every else name ∷ every,
      )

  unfoldable pub channel_line : String → State → State
  unfolding channel_dir channel_file
  channel_line line (c, w) =
      let dir = channel_dir line in
      let file = channel_file line in
      let ((c', w'), found) = check_exist_file dir file (append_info dir file true c, w) in
      (if found then c' else append_info dir file false c', w')

  unfoldable pub channel_lines : List String → State → State
  unfolding channel_line
  channel_lines [] s = s
  channel_lines (line ∷ lines) s =
      channel_lines lines (if is_empty line then s else channel_line line s)

  -- The text of a table, if its download is recorded as whole and it can be opened.
  unfoldable pub table_text : String → String → Q.World → Option String
  table_text box_id file w = elim (Q.read file w) [
    | none ↦ none
    | some bytes ↦
        if check_rev Q st box_id (Q.file_name file) w == status_code download_ok
        then some (Q.from_utf8 bytes)
        else none
  ]

  unfoldable pub collect_adverts : String → State → State
  unfolding advert_lines table_text
  collect_adverts file (c, w) = elim (table_text c.box_id file w) [
    | none ↦ (c, w)
    | some text ↦
        let ((c', w'), missing, every) = advert_lines advert_dir (split b'\n' text) (c, w) in
        (append_infos advert_dir every true (append_infos advert_dir missing false c'), w')
  ]

  unfoldable pub collect_channels : String → State → State
  unfolding channel_lines table_text
  collect_channels file (c, w) = elim (table_text c.box_id file w) [
    | none ↦ (c, w)
    | some text ↦ channel_lines (split b'\n' text) (c, w)
  ]

  -- The type is an argument, to be matched; it is always `c.content_type`.
  collect_of_type : ContentType → String → State → State
  unfolding collect_adverts collect_channels
  collect_of_type advert file (c, w) =
      collect_adverts file (record c { source_list = []; source_dir = advert_dir }, w)
  collect_of_type music file (c, w) =
      collect_channels file (record c { source_list = []; source_dir = music_dir }, w)
  collect_of_type _ file (c, w) = (record c { source_list = []; dest = "" }, w)

  unfoldable pub collect_content_from_file : String → State → State
  unfolding collect_of_type
  collect_content_from_file file (c, w) = collect_of_type c.content_type file (c, w)

  checked_files : String → List String → State → State × List String
  checked_files dir [] s = (s, [])
  checked_files dir (file ∷ files) (c, w) =
      let (c', w', ok) = check_file Q st c.box_id (info_of c dir file) c w in
      let (s', rest) = checked_files dir files (c', w') in (s', if ok then file ∷ rest else rest)

  unfoldable pub files_from_dir_with_check : String → State → State × List String
  unfolding checked_files
  files_from_dir_with_check dir (c, w) = checked_files (Q.dir_name dir) (Q.entry_files dir w) (c, w)

  unfoldable pub collect_content_from_dir_with_check : String → State → State
  unfolding files_from_dir_with_check
  collect_content_from_dir_with_check dir s =
      let ((c, w), files) = files_from_dir_with_check dir s in
      (append_infos (Q.dir_name dir) files false c, w)

  each_dir_with_check : List String → State → State
  each_dir_with_check [] s = s
  each_dir_with_check (dir ∷ dirs) s =
      each_dir_with_check dirs (collect_content_from_dir_with_check dir s)

  unfoldable pub collect_content_from_path_with_check : String → State → State
  unfolding each_dir_with_check collect_content_from_dir_with_check
  collect_content_from_path_with_check path (c, w) =
      if is_music c.content_type then each_dir_with_check (Q.entry_dirs path w) (c, w) else (c, w)

  unfoldable pub collect_content_from_dir : String → State → State
  collect_content_from_dir dir (c, w) =
      (append_infos (Q.dir_name dir) (Q.entry_files dir w) false c, w)

  each_dir : List String → State → State
  each_dir [] s = s
  each_dir (dir ∷ dirs) s = each_dir dirs (collect_content_from_dir dir s)

  unfoldable pub collect_content_from_path : String → State → State
  unfolding each_dir collect_content_from_dir
  collect_content_from_path path (c, w) =
      if is_music c.content_type then each_dir (Q.entry_dirs path w) (c, w) else (c, w)

  -- `collectRepots` with `reportsFiles`
  unfoldable pub collect_reports : State → State
  unfolding collect_content_from_dir
  collect_reports (c, w) = collect_content_from_dir c.source_dir (c, w)
