-- ===== src/Check/Files/Total.antt =====
-- CheckDownloadedContent::checkAllFiles: it answers wherever every pointer can be followed.
use mediaupdater.Base.{
  ◌≡◌, refl, ◌∙◌, subst, ℕ, String, Bool, true, false, some, List, [], ◌∷◌, arith, Option-cases,
  Bool-cases, inl, inr,
}
use mediaupdater.Base.Lists.{all}
use mediaupdater.Qt.{Qt}
use mediaupdater.Station.{Station}
use mediaupdater.Content.{ContentInfo, Content, destination_slash}
use mediaupdater.Heap.{ContentMap, deref, find_content, put_back}
use mediaupdater.Heap.Live.{IsTyped, is_live, is_live-put_back, put_back-IsTyped}
use mediaupdater.Check.{trust, check_file}
use mediaupdater.Check.Files.{Files, check_pointed, check_all_files}
use mediaupdater.Check.Files.Laws.{check_all_files-result}

pub find_of_deref :
    (m : ContentMap) (info : ContentInfo) (c : Content)
    → deref m info ≡ some c
    → (a : ℕ) × (find_content a m ≡ some c)
unfolding deref
find_of_deref m info c h = elim (Option-cases info.content) [
  | inl n ↦ ground arith
  | inr (a, n) ↦ (a, ground arith)
]

all_live-put_back :
    (c c' : Content) (infos : List ContentInfo) (m : ContentMap) (a : ℕ)
    → IsTyped m
    → find_content a m ≡ some c
    → c'.address ≡ c.address
    → c'.content_type ≡ c.content_type
    → all (is_live (put_back c' m)) infos ≡ all (is_live m) infos
all_live-put_back c c' [] m a t e d y = refl
all_live-put_back c c' (info ∷ infos) m a t e d y =
    rw (is_live-put_back c c' info m a t e d y, all_live-put_back c c' infos m a t e d y) refl

module _ (Q : Qt) (st : Station) (box_id : String) where
  check_file_keeps :
      (info : ContentInfo) (c : Content) (w : Q.World)
      → let c' = (check_file Q st box_id info c w).0 in
        (c'.address ≡ c.address) × (c'.content_type ≡ c.content_type)
  unfolding check_file destination_slash
  check_file_keeps info c w = ground arith

  -- A file whose pointer can be followed is checked, and leaves all pointers as good as they were.
  check_pointed_total :
      (info : ContentInfo) (infos : List ContentInfo) (m : ContentMap) (w : Q.World)
      → IsTyped m
      → is_live m info ≡ true
      → (m' : ContentMap) × (w' : Q.World) × (ok : Bool) × (check_pointed Q st box_id info (m, w)
          ≡ some ((m', w'), ok))
        × IsTyped m'
        × (all (is_live m') infos ≡ all (is_live m) infos)
  unfolding check_pointed
  check_pointed_total info infos m w t h = elim (Option-cases (deref m info)) [
    | inl n ↦ ground arith
    | inr (c, e) ↦
        (let (a, f) = find_of_deref m info c e in
          let (d, y) = check_file_keeps info c w in
          let r = check_file Q st box_id info c w in
          (
            put_back r.0 m,
            r.1,
            r.2,
            rw (check_pointed, e) refl,
            put_back-IsTyped r.0 m t,
            all_live-put_back c r.0 infos m a t f d y,
          ))
  ]

  check_all_files_returns :
      (infos : List ContentInfo) (m : ContentMap) (w : Q.World)
      → IsTyped m
      → all (is_live m) infos ≡ true
      → (s' : Files Q st box_id) × (ok : Bool) × (check_all_files Q st box_id infos (m, w)
          ≡ some (s', ok))
  unfolding check_all_files
  check_all_files_returns [] m w t h = ((m, w), true, refl)
  check_all_files_returns (info ∷ infos) m w t h =
      let (m', w', ok, e, t', l) = check_pointed_total info infos m w t (ground arith) in
      let (s', b, f) = check_all_files_returns infos m' w' t' (l ∙ ground arith) in
      elim (Bool-cases ok) [
        | inl k ↦ (s', b, rw (check_all_files, e, k) f)
        | inr k ↦ ((m', w'), false, rw (check_all_files, e, k) refl)
      ]

  -- If the pointer of every file can be followed, and each content stands under its own type, then
  -- the check comes to an answer, and that is whether every file is marked as whole.
  pub check_all_files_total :
      (infos : List ContentInfo) (m : ContentMap) (w : Q.World)
      → IsTyped m
      → all (is_live m) infos ≡ true
      → (s' : Files Q st box_id) × (check_all_files Q st box_id infos (m, w)
          ≡ some (s', all (λ info. trust Q st box_id info w) infos))
  check_all_files_total infos m w t h =
      let (s', ok, e) = check_all_files_returns infos m w t h in
      (
        s',
        subst (λ b. check_all_files Q st box_id infos (m, w) ≡ some (s', b))
            (check_all_files-result Q st box_id infos (m, w) s' ok e) e,
      )
