-- ===== src/Content/Excess/Laws.antt =====
-- Content::deleteExcessFiles: what its search finds, counted per file.
use mediaupdater.Base.{
  ◌≡◌, refl, String, ◌<>◌, true, ◌&&◌, some, none, arith, Option-cases, inl, inr, List, [], ◌∷◌,
  ◌++◌, ℕ, ◌+◌, ◌-◌, if◌then◌else◌, string_eq,
}
use mediaupdater.Qt.{Qt}
use mediaupdater.Station.{Station}
use mediaupdater.Content.{is_music, ContentInfo, Content, destination_slash, dir_name_slash}
use mediaupdater.Content.Excess.{same_file, take_match, Search, unmatched, search_all}

-- How many entries of a list stand for the file of `k`.
abbrev pub count : ContentInfo → List ContentInfo → ℕ
count k [] = 0
count k (x ∷ xs) = (if same_file k x then 1 else 0) + count k xs

count-append :
    (k : ContentInfo) (xs ys : List ContentInfo) → count k (xs ++ ys) ≡ count k xs + count k ys
count-append k [] ys = omega arith
count-append k (x ∷ xs) ys = omega (arith, count-append k xs ys)

same_file_agree : (k x y : ContentInfo) → same_file x y ≡ true → same_file k y ≡ same_file k x
unfolding same_file
same_file_agree k x y h = ground arith

-- Taking a match takes one entry of that file and none of another.
count-take_match-some :
    (k x : ContentInfo) (ks left : List ContentInfo)
    → take_match x ks ≡ some left
    → count k ks ≡ count k left + (if same_file k x then 1 else 0)
unfolding take_match
count-take_match-some k x [] left h = cc
count-take_match-some k x (y ∷ ks) left h = elim (Option-cases (take_match x ks)) [
  | inl e ↦ ground (arith, same_file_agree k x y)
  | inr (rest, e) ↦ ground (arith, same_file_agree k x y, count-take_match-some k x ks rest e)
]

-- Where no match is found there is no entry of that file.
count-take_match-none :
    (k x : ContentInfo) (ks : List ContentInfo)
    → take_match x ks ≡ none
    → same_file k x ≡ true
    → count k ks ≡ 0
unfolding take_match same_file
count-take_match-none k x [] h e = refl
count-take_match-none k x (y ∷ ks) h e = elim (Option-cases (take_match x ks)) [
  | inl no_rest ↦ ground (arith, count-take_match-none k x ks no_rest e)
  | inr (rest, found) ↦ absurd (ground arith)
]

module _ (Q : Qt) (st : Station) (c : Content) (w : Q.World) where
  -- The path that the search looks at for an entry, when its directory is `destination`.
  abbrev pub place : String → ContentInfo → String
  place destination k =
      (if is_music c.content_type then (destination_slash c).1 <> dir_name_slash k else destination)
      <> k.file_name

  place_agree : (d : String) (k x : ContentInfo) → same_file k x ≡ true → place d k ≡ place d x
  unfolding same_file dir_name_slash
  place_agree d k x h = ground arith

  -- An entry with no match: it is counted where its file exists, and the paths stay.
  count-unmatched :
      (k x : ContentInfo) (s : Search Q st)
      → (count k (unmatched Q st c x w s).excess
          ≡ count k s.excess
            + (if same_file k x && Q.exists (place s.destination k) w then 1 else 0))
        × (place (unmatched Q st c x w s).destination k ≡ place s.destination k)
  unfolding unmatched
  count-unmatched k x s = (
    ground (arith, place_agree s.destination k x, count-append k s.excess (x ∷ [])),
    ground arith,
  )

  -- The search is the difference of two multisets: a file that exists is found as often as the
  -- directories list it beyond the standard list, and one that does not exist is not found.
  pub count-search_all :
      (k : ContentInfo) (sources : List ContentInfo) (s : Search Q st)
      → count k (search_all Q st c sources w s).excess
        ≡ count k s.excess
          + (if Q.exists (place s.destination k) w then count k sources - count k s.standart else 0)
  unfolding search_all
  count-search_all k [] s = ground arith
  count-search_all k (x ∷ sources) s = elim (Option-cases (take_match x s.standart)) [
    | inl e ↦ ground (
      arith,
      count-unmatched k x s,
      count-take_match-none k x s.standart e,
      count-search_all k sources (unmatched Q st c x w s),
    )
    | inr (left, e) ↦ ground (
      arith,
      count-take_match-some k x s.standart left e,
      count-search_all k sources (record s { standart = left }),
    )
  ]
