-- ===== src/Check/Files.antt =====
-- CheckDownloadedContent::checkAllFiles, over entries of several contents.
pub mod Laws
pub mod Total
use mediaupdater.Base.{
  String, Bool, true, false, Option, none, some, List, [], ◌∷◌, if◌then◌else◌, ◌>>=◌,
}
use mediaupdater.Qt.{Qt}
use mediaupdater.Station.{Station}
use mediaupdater.Content.{ContentInfo, Content}
use mediaupdater.Heap.{ContentMap, deref, put_back}
use mediaupdater.Check.{check_file}

module _ (Q : Qt) (st : Station) (box_id : String) where
  abbrev pub Files : Type 0
  Files = ContentMap × Q.World

  -- `checkFile` through the entry's pointer; `none` where it cannot be followed.
  unfoldable pub check_pointed : ContentInfo → Files → Option (Files × Bool)
  check_pointed info (m, w) = elim (deref m info) [
    | none ↦ none
    | some c ↦ let (c', w', ok) = check_file Q st box_id info c w in some ((put_back c' m, w'), ok)
  ]

  -- The loop stops at the first file that fails; an empty list passes.
  unfoldable pub check_all_files : List ContentInfo → Files → Option (Files × Bool)
  unfolding check_pointed
  check_all_files [] s = some (s, true)
  check_all_files (info ∷ infos) s = elim (check_pointed info s) [
    | none ↦ none
    | some (s', ok) ↦ let rest = check_all_files infos s' in if ok then rest else some (s', false)
  ]
