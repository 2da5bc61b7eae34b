-- ===== src/Tests.antt =====
-- Concrete inputs for the theorems and short runs of the model, on a machine kept in memory.
mod Contents
mod Courses
mod Downloads
mod Service
mod Services
mod Settings
use mediaupdater.Base.{String, ◌<>◌, Bool, true, false, List, [], ◌∷◌, none, some}
use mediaupdater.Base.Int.{ℤ, pos}
use mediaupdater.Qt.Memory.{Disk, Value, bool}
use mediaupdater.LoginInfo.{LoginInfo, login_info}
use mediaupdater.Station.{Station}
use mediaupdater.Heap.{ContentMap}
use mediaupdater.Content.{ContentType, music, advert, revision, ContentInfo, Content, info_at}

abbrev pub station : Station
station = record {
  station_id = pos 7;
  path_to_station = "/s";
  path_to_media = "/m";
  settings = "/s/settings.ini";
  mediabox = "/s/mediabox.conf";
  connection = "/s/connection.ini";
}

-- A machine with these files, and some files marked as whole under their keys.
abbrev pub machine : List (String × String) → List ((String × String) × Value) → Disk
machine files conf = record { files = files; conf = conf; listing = λ _. []; folders = λ _. [] }

abbrev pub marked : String → (String × String) × Value
marked key = (("/m/.sync/1/checkstorage", key), bool true)

abbrev pub login : LoginInfo
login = login_info "1" "ftp.example.org" "box" "secret" "data"

abbrev pub entry : String → String → ContentInfo
entry dir file = info_at 0 dir file

-- A content at address 0 of box 1, with these entries.
abbrev pub content : ContentType → String → Bool → List ContentInfo → Content
content type dest local entries = record {
  address = 0;
  source_list = entries;
  standart_source_files = [];
  dest = dest;
  content_type = type;
  source_dir = "/d";
  local = local;
  box_id = "1";
}

abbrev pub tunes : Content
tunes = content music "/m/music" false (entry "x" "a.mp3" ∷ entry "y" "b.mp3" ∷ [])

abbrev pub partial : Disk
partial = machine (("/m/music/x/a.mp3", "A") ∷ []) []

abbrev pub one_music : ContentMap
one_music = record { of_music = some tunes; of_advert = none; of_revision = none; of_report = none }

abbrev pub one_marked : Disk
one_marked =
    machine (("/m/music/x/a.mp3", "A") ∷ ("/m/music/y/b.mp3", "B") ∷ []) (marked "x/a.mp3" ∷ [])

abbrev pub both_marked : Disk
both_marked = machine [] (marked "x/a.mp3" ∷ marked "y/b.mp3" ∷ [])

abbrev pub second_cleared : ContentMap × Disk
second_cleared = (
  record one_music { of_music = some (record tunes { dest = "/m/music/" }) },
  machine (("/m/music/x/a.mp3", "A") ∷ []) (marked "x/a.mp3" ∷ []),
)

abbrev pub command : Content
command = content revision "/m/.sync/1" false (entry "" "chanels" ∷ [])
