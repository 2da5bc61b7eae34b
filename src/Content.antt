-- ===== src/Content.antt =====
-- updater/content.h and the accessors of content.cpp: the files of one kind of content.
-- A pointer to a `Content` is its address, a number that the manager gives out once and for all.
pub mod Collect
pub mod Owner
pub mod Build
pub mod Copy
pub mod Excess
use mediaupdater.Base.{
  ℕ, String, ◌<>◌, Bool, true, false, Option, none, some, List, [], ◌∷◌, ◌++◌, if◌then◌else◌,
}
use mediaupdater.Base.Int.{ℤ, pos, negsuc}
use mediaupdater.Base.Text.{is_empty, with_slash}

pub data ContentType : Type 0 where
  music advert revision report : ContentType

abbrev pub is_music : ContentType → Bool
is_music music = true
is_music _ = false

abbrev pub is_advert : ContentType → Bool
is_advert advert = true
is_advert _ = false

abbrev pub is_revision : ContentType → Bool
is_revision revision = true
is_revision _ = false

-- The parts of a QUrl that the sources set.
pub record Url : Type 0 where
  pub scheme : String
  pub host : String
  pub path : String
  pub port : ℤ
  pub user_name : String
  pub password : String

abbrev pub empty_url : Url
empty_url = record {
  scheme = "";
  host = "";
  path = "";
  port = negsuc 0;
  user_name = "";
  password = "";
}

-- `SContentInfo`
pub record ContentInfo : Type 0 where
  pub file_name : String
  pub dir_name : String
  pub server_path : String
  pub url : Url
  pub content : Option ℕ
  pub size : ℤ
  pub size_current : ℤ

unfoldable pub empty_info : ContentInfo
empty_info = record {
  file_name = "";
  dir_name = "";
  server_path = "";
  url = empty_url;
  content = none;
  size = pos 0;
  size_current = pos 0;
}

unfoldable pub dir_name_slash : ContentInfo → String
dir_name_slash info = if is_empty info.dir_name then info.dir_name else info.dir_name <> "/"

-- The member that only names the types in the log is left out.
pub record Content : Type 0 where
  pub address : ℕ
  pub source_list : List ContentInfo
  pub standart_source_files : List ContentInfo
  pub dest : String
  pub content_type : ContentType
  pub source_dir : String
  pub local : Bool
  pub box_id : String

unfoldable pub source_dir_slash : Content → String
source_dir_slash c = with_slash c.source_dir

-- The getter adds the slash to the member itself: the content after it, and the text returned.
unfoldable pub destination_slash : Content → Content × String
destination_slash c = let dest = with_slash c.dest in (record c { dest = dest }, dest)

-- An entry as `appendInfo` and the checks build it: names, and `this`.
unfoldable pub info_at : ℕ → String → String → ContentInfo
unfolding empty_info
info_at address dir file = record empty_info {
  dir_name = dir;
  file_name = file;
  content = some address;
}

abbrev pub info_of : Content → String → String → ContentInfo
info_of c dir file = info_at c.address dir file

unfoldable pub append_info : String → String → Bool → Content → Content
append_info dir file true c = record c {
  standart_source_files = c.standart_source_files ++ (info_of c dir file ∷ []);
}
append_info dir file false c = record c { source_list = c.source_list ++ (info_of c dir file ∷ []) }

unfoldable pub append_infos : String → List String → Bool → Content → Content
unfolding append_info
append_infos dir [] std c = c
append_infos dir (file ∷ files) std c = append_infos dir files std (append_info dir file std c)
