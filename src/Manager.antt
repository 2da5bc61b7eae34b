-- ===== src/Manager.antt =====
-- updater/contentmanager.h and contentmanager.cpp: the contents in work and the files to download.
pub mod Files
pub mod Laws
pub mod Live
use mediaupdater.Base.{
  ℕ, suc, String, ◌<>◌, Bool, true, false, not, ◌&&◌, ◌||◌, Option, none, some, List, [], ◌∷◌, map,
  if◌then◌else◌, ◌==◌,
}
use mediaupdater.Base.Int.{ℤ, pos, ◌+ℤ◌}
use mediaupdater.Base.Text.{is_empty}
use mediaupdater.Qt.{Qt}
use mediaupdater.LoginInfo.{LoginInfo, prefix_slash, box_folder_slash}
use mediaupdater.Station.{Station, set_player_restart}
use mediaupdater.Content.{
  ContentType, music, advert, revision, report, is_revision, ContentInfo, Content, Url,
  source_dir_slash, dir_name_slash,
}
use mediaupdater.Content.Build.{new_content}
use mediaupdater.Content.Excess.{sync}
use mediaupdater.Heap.{Slots, ContentMap, no_slots, slot, set_slot, is_none, put_back}
use Files.{lookup, insert, values}

pub record ContentManager : Type 0 where
  pub content_map : ContentMap
  pub content_files : List (String × ContentInfo)
  pub standart_files : Slots (List ContentInfo)
  pub login_info : LoginInfo
  pub total_size : ℤ
  -- the address of the next `new Content`
  pub next_address : ℕ

unfoldable pub new_manager : LoginInfo → ContentManager
new_manager login_info = record {
  content_map = no_slots;
  content_files = [];
  standart_files = no_slots;
  login_info = login_info;
  total_size = pos 0;
  next_address = 0;
}

unfoldable pub set_login_info : LoginInfo → ContentManager → ContentManager
set_login_info login_info m = record m { login_info = login_info }

unfoldable pub set_filesize : String → ℤ → ContentManager → ContentManager
set_filesize file size m = elim (lookup file m.content_files) [
  | none ↦ m
  | some info ↦ record m {
    content_files = insert file (record info { size = size }) m.content_files;
  }
]

unfoldable pub append_size : ℤ → ContentManager → ContentManager
unfolding ◌+ℤ◌
append_size size m = record m { total_size = m.total_size +ℤ size }

unfoldable pub set_total_size : ℤ → ContentManager → ContentManager
set_total_size size m = record m { total_size = size }

unfoldable pub content_files : ContentManager → List ContentInfo
content_files m = values m.content_files

-- `boxFolder` of `generateUrlList`
unfoldable pub box_folder_of : LoginInfo → ContentType → String
box_folder_of l type = if is_revision type then l.box_folder else ""

unfoldable pub server_path : LoginInfo → Content → ContentInfo → String
unfolding box_folder_of
server_path l c info =
    if is_empty (box_folder_of l c.content_type)
    then prefix_slash l <> (source_dir_slash c <> info.file_name)
    else prefix_slash l
      <> (box_folder_slash l <> (source_dir_slash c <> (dir_name_slash info <> info.file_name)))

-- One round of the loop: the entry with its place on the server.
unfoldable pub with_url : LoginInfo → Content → ContentInfo → ContentInfo
with_url l c info =
    let path = server_path l c info in
    record info {
      url = record {
        scheme = l.scheme;
        host = l.host;
        path = path;
        port = l.port;
        user_name = l.login;
        password = l.password;
      };
      server_path = path;
    }

unfoldable pub add_urls :
    LoginInfo
    → Content
    → List ContentInfo
    → List (String × ContentInfo)
    → List (String × ContentInfo)
add_urls l c [] files = files
add_urls l c (info ∷ infos) files =
    add_urls l c infos (insert info.file_name (with_url l c info) files)

-- The standard files are kept once an entry was seen, and not for a revision.
unfoldable pub keep_standart : Content → Slots (List ContentInfo) → Slots (List ContentInfo)
keep_standart c s = elim c.source_list [
  | [] ↦ s
  | _ ∷ _ ↦
      if is_revision c.content_type then s else set_slot c.content_type c.standart_source_files s
]

unfoldable pub generate_url_list : Content → ContentManager → ContentManager
unfolding add_urls keep_standart
generate_url_list c m = if is_empty c.source_dir then m else record m {
  content_files = add_urls m.login_info c c.source_list m.content_files;
  standart_files = keep_standart c m.standart_files;
}

unfoldable pub map_is_empty : ContentMap → Bool
map_is_empty m =
    is_none m.of_music && is_none m.of_advert && is_none m.of_revision && is_none m.of_report

unfoldable pub clear : ContentManager → ContentManager
clear m = record m { content_map = no_slots; content_files = [] }

unfoldable pub full_clear : ContentManager → ContentManager
unfolding clear
full_clear m = record (clear m) { standart_files = no_slots }

module _ (Q : Qt) (st : Station) where
  -- `new Content` into the map, at the next address.
  unfoldable pub allocate :
      ContentType → Bool → ContentManager × Q.World → (ContentManager × Q.World) × Content
  allocate type local (m, w) =
      let (c, w') = new_content Q st m.next_address type m.login_info.box_id local w in
      (
        (
          record m {
            content_map = set_slot type c m.content_map;
            next_address = suc m.next_address;
          },
          w',
        ),
        c,
      )

  -- A revision is added to an empty map only, and no type twice.
  unfoldable pub refuses : ContentType → ContentMap → Bool
  refuses revision m = not (map_is_empty m)
  refuses type m = not (is_none (slot type m))

  unfoldable pub add_network_content :
      ContentType → ContentManager × Q.World → ContentManager × Q.World
  unfolding refuses
  add_network_content type (m, w) =
      let ((m', w'), c) = allocate type false (m, w) in
      if refuses type m.content_map then (m, w) else (generate_url_list c m', w')

  unfoldable pub set_local_content : ContentManager × Q.World → ContentManager × Q.World
  set_local_content (m, w) =
      let (s, _) = allocate revision true (clear m, w) in
      let (s', _) = allocate music true s in let (s'', _) = allocate advert true s' in s''

  -- `content->sync()` for the content of one slot, if there is one.
  unfoldable pub sync_slot :
      ContentType → (ContentMap × Q.World) × Bool → (ContentMap × Q.World) × Bool
  sync_slot type ((m, w), restart) = elim (slot type m) [
    | none ↦ ((m, w), restart)
    | some c ↦ let ((c', w'), synced) = sync Q st (c, w) in ((put_back c' m, w'), restart || synced)
  ]

  unfoldable pub sync_content : ContentManager × Q.World → ContentManager × Q.World
  unfolding sync_slot
  sync_content s =
      let (m, w) = set_local_content s in
      let ((contents, w'), restart) =
        sync_slot report
          (sync_slot revision (sync_slot advert (sync_slot music ((m.content_map, w), false)))) in
      (record m { content_map = contents }, if restart then set_player_restart Q st true w' else w')
