-- ===== src/Download/Course/Path.antt =====
-- With a good current file its path is found, and the other pointers stay as good as they were.
use mediaupdater.Base.{
  ◌≡◌, refl, ◌∙◌, String, ◌<>◌, Bool, true, some, List, [], ◌∷◌, arith, Option-cases, inl, inr,
}
use mediaupdater.Base.Int.{int_eq}
use mediaupdater.Base.Lists.{all}
use mediaupdater.Qt.{Qt}
use mediaupdater.Station.{Station}
use mediaupdater.Content.{ContentInfo, destination_slash, dir_name_slash}
use mediaupdater.Check.{file_path}
use mediaupdater.Check.Files.Total.{find_of_deref}
use mediaupdater.Heap.{ContentMap, deref, put_back}
use mediaupdater.Heap.Live.{IsTyped, is_live, is_live-put_back, put_back-IsTyped}
use mediaupdater.Manager.{content_files}
use mediaupdater.Download.{Downloads}
use mediaupdater.Download.Transfer.{current_path}
use mediaupdater.Download.Course.{Valid}

all_same :
    (p q : ContentInfo → Bool) (infos : List ContentInfo)
    → ((info : ContentInfo) → q info ≡ p info)
    → all q infos ≡ all p infos
all_same p q [] h = refl
all_same p q (info ∷ infos) h = ground (arith, h info, all_same p q infos h)

module _ (Q : Qt) where
  -- The same state over a map with the same good pointers.
  abbrev pub over : ContentMap → Downloads Q → Downloads Q
  over m' d = let m = d.manager in record d { manager = record m { content_map = m' } }

  over-Valid :
      (m' : ContentMap) (d : Downloads Q)
      → IsTyped m'
      → ((info : ContentInfo) → is_live m' info ≡ is_live d.manager.content_map info)
      → Valid Q d
      → Valid Q (over m' d)
  unfolding content_files
  over-Valid m' d t same v =
      let m = d.manager.content_map in
      let move = λ (infos : List ContentInfo). all_same (is_live m) (is_live m') infos same in
      record {
        sound = record {
          typed = t;
          files_live = move (content_files d.manager) ∙ v.sound.files_live;
        };
        waiting = λ h. move d.ftp_content_files ∙ v.waiting h;
        queued = λ h. move d.content_files ∙ v.queued h;
        current = λ h. same d.current ∙ v.current h;
      }

  -- With a good current file its path is found, over a map with the same good pointers.
  pub current_path_total :
      (st : Station) (d : Downloads Q)
      → Valid Q d
      → d.reply ≡ true
      → (m' : ContentMap) × (dir : String) × (path : String) × (current_path Q st d
          ≡ some (over m' d, dir, path))
        × Valid Q (over m' d)
  unfolding current_path destination_slash
  current_path_total st d v r = elim (Option-cases (deref d.manager.content_map d.current)) [
    | inl n ↦ absurd (ground (arith, v.current))
    | inr (c, e) ↦
        (let m = d.manager.content_map in
          let (a, f) = find_of_deref m d.current c e in
          let (c', dest) = destination_slash c in
          (
            put_back c' m,
            dest <> dir_name_slash d.current,
            file_path Q st d.login_info.box_id d.current dest,
            rw (current_path, e) refl,
            over-Valid (put_back c' m) d (put_back-IsTyped c' m v.sound.typed)
                (λ info. is_live-put_back c c' info m a v.sound.typed f refl refl) v,
          ))
  ]
