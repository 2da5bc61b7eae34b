-- ===== src/Content/Copy.antt =====
-- updater/content.cpp: `copyToDestination`, which moves what was downloaded to where it is played.
pub mod Laws
use mediaupdater.Base.{
  String, ◌<>◌, Bool, true, false, not, ◌&&◌, ◌||◌, Option, none, some, List, [], ◌∷◌,
  if◌then◌else◌, ◌==◌, string_eq,
}
use mediaupdater.Base.Int.{ℤ, int_eq}
use mediaupdater.Qt.{Qt}
use mediaupdater.Station.{Station}
use mediaupdater.Content.{
  ContentType, music, advert, revision, report, is_music, is_revision, ContentInfo, Content,
  dir_name_slash, source_dir_slash, destination_slash,
}
use mediaupdater.Content.Collect.{State}
use mediaupdater.Check.{download_ok, status_code, check_rev, remove}

-- Where an entry is taken from, and the directory that it goes to.
unfoldable pub source_of : Content → ContentInfo → String
source_of c info =
    if is_music c.content_type || is_revision c.content_type
    then source_dir_slash c <> (dir_name_slash info <> info.file_name)
    else source_dir_slash c <> info.file_name

unfoldable pub target_dir : Content → ContentInfo → String
target_dir c info =
    if is_music c.content_type
    then (destination_slash c).1 <> dir_name_slash info
    else (destination_slash c).1

unfoldable pub target_of : Content → ContentInfo → String
unfolding target_dir
target_of c info = target_dir c info <> info.file_name

module _ (Q : Qt) (st : Station) where
  abbrev pub text_or_empty : Option String → String
  text_or_empty none = ""
  text_or_empty (some s) = s

  -- A revision file is copied only if its download is recorded as whole, it can be opened, and it
  -- differs from the current file, which reads as empty if it cannot be opened.
  unfoldable pub revision_changed : String → String → String → Q.World → Bool
  revision_changed box_id source target w = elim (Q.read source w) [
    | none ↦ false
    | some new ↦
        check_rev Q st box_id (Q.file_name source) w == status_code download_ok
        && not (new == text_or_empty (Q.read target w))
  ]

  -- Clear the target, then copy or move; a file that arrived loses its mark.
  unfoldable pub transfer : Content → ContentInfo → Q.World → Q.World × Bool
  transfer c info w =
      let target = target_of c info in
      let cleared = if Q.exists target w then (Q.remove_file target w).0 else w in
      let (moved, ok) =
        if is_revision c.content_type
        then Q.copy_file (source_of c info) target cleared
        else Q.rename_file (source_of c info) target cleared in
      (if ok then remove Q st c.box_id info moved else moved, ok)

  -- One round of the loop, and whether the file arrived.
  unfoldable pub copy_one : Content → ContentInfo → Q.World → Q.World × Bool
  unfolding revision_changed transfer
  copy_one c info w =
      let w' = Q.mkpath (target_dir c info) w in
      let moved = transfer c info w' in
      if is_revision c.content_type
        && not (revision_changed c.box_id (source_of c info) (target_of c info) w')
      then (w', false)
      else moved

  unfoldable pub copy_all : Content → List ContentInfo → Q.World → Q.World × Bool
  unfolding copy_one
  copy_all c [] w = (w, false)
  copy_all c (info ∷ infos) w =
      let (w', res) = copy_one c info w in
      let (w'', rest) = copy_all c infos w' in (w'', res || rest)

  unfoldable pub copy_to_destination : State Q st → State Q st × Bool
  unfolding copy_all
  copy_to_destination (c, w) =
      let (c', dest) = destination_slash c in
      let (w', res) = copy_all c' c'.source_list w in ((c', w'), res)
