-- ===== src/Check.antt =====
-- updater/checkdownloadedcontent.h and .cpp: which files are known to be whole. Marks of content
-- stand in `checkstorage`, under the directory as a group; those of revision files in `revstorage`.
pub mod Laws
pub mod Files
use mediaupdater.Base.{
  ℕ, String, ◌<>◌, Bool, true, false, not, ◌&&◌, ◌||◌, Option, none, some, List, [], ◌∷◌,
  if◌then◌else◌, ◌==◌,
}
use mediaupdater.Base.Int.{ℤ, pos}
use mediaupdater.Qt.{Qt, bool_value, int_value}
use mediaupdater.Station.{Station, media_sync}
use mediaupdater.Content.{ContentInfo, Content, dir_name_slash, destination_slash}

pub data CheckStatus : Type 0 where
  default download_ok download_fail : CheckStatus

-- The enumerators' values, which the store holds.
abbrev pub status_code : CheckStatus → ℤ
status_code default = pos 0
status_code download_ok = pos 1
status_code download_fail = pos 2

module _ (Q : Qt) (st : Station) (box_id : String) where
  unfoldable pub check_storage : String
  check_storage = media_sync Q st <> ("/" <> (box_id <> "/checkstorage"))

  unfoldable pub rev_storage : String
  rev_storage = media_sync Q st <> ("/" <> (box_id <> "/command/revstorage"))

  -- The key of a mark, inside `beginGroup(dirName)`.
  unfoldable pub mark_key : ContentInfo → String
  mark_key info = Q.full_key info.dir_name info.file_name

  unfoldable pub trust : ContentInfo → Q.World → Bool
  unfolding mark_key
  trust info w = bool_value Q check_storage (mark_key info) false w

  unfoldable pub set_trust : ContentInfo → Q.World → Q.World
  unfolding mark_key
  set_trust info w = Q.set_setting check_storage (mark_key info) (Q.of_bool true) w

  unfoldable pub remove : ContentInfo → Q.World → Q.World
  unfolding mark_key
  remove info w = Q.remove_setting check_storage (mark_key info) w

  unfoldable pub check_rev : String → Q.World → ℤ
  check_rev file_name w = int_value Q rev_storage file_name (status_code default) w

  unfoldable pub set_rev : String → CheckStatus → Q.World → Q.World
  set_rev file_name status w = Q.set_setting rev_storage file_name (Q.of_int (status_code status)) w

  -- The path of the file that an entry of content `c` stands for.
  unfoldable pub file_path : ContentInfo → String → String
  file_path info dest = dest <> (dir_name_slash info <> info.file_name)

  -- The removal of a file without a mark: from disk, and then from the store.
  unfoldable pub remove_unchecked : ContentInfo → String → Q.World → Q.World
  unfolding remove
  remove_unchecked info path w =
      if Q.exists path w
      then (let (w', removed) = Q.remove_file path w in if removed then remove info w' else w')
      else w

  -- `c` is the content that the entry points to.
  unfoldable pub check_file : ContentInfo → Content → Q.World → Content × Q.World × Bool
  unfolding trust remove_unchecked file_path destination_slash
  check_file info c w =
      if not (trust info w) && not c.local
      then (let (c', dest) = destination_slash c in
          (c', remove_unchecked info (file_path info dest) w, false))
      else (c, w, trust info w)
