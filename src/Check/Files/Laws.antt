-- ===== src/Check/Files/Laws.antt =====
-- CheckDownloadedContent::checkAllFiles: it passes exactly if every file is marked.
use mediaupdater.Base.{
  ◌≡◌, subst, String, Bool, true, some, List, [], ◌∷◌, arith, Option-cases, Bool-cases, inl, inr,
}
use mediaupdater.Base.Lists.{all}
use mediaupdater.Qt.{Qt}
use mediaupdater.Station.{Station}
use mediaupdater.Content.{ContentInfo}
use mediaupdater.Check.{trust, check_file}
use mediaupdater.Check.Files.{Files, check_pointed, check_all_files}

module _ (Q : Qt) (st : Station) (box_id : String) where
  check_pointed-result :
      (info : ContentInfo) (s s' : Files Q st box_id) (ok : Bool)
      → check_pointed Q st box_id info s ≡ some (s', ok)
      → ok ≡ trust Q st box_id info s.1
  unfolding check_pointed check_file
  check_pointed-result info (m, w) s' ok h = ground arith

  check_pointed_passed :
      (info : ContentInfo) (s s' : Files Q st box_id) (ok : Bool)
      → check_pointed Q st box_id info s ≡ some (s', ok)
      → ok ≡ true
      → s'.1 ≡ s.1
  unfolding check_pointed check_file
  check_pointed_passed info (m, w) s' ok h passed = ground arith

  -- If the content of every file that the check comes to is there, its answer is whether every
  -- file is marked as whole.
  pub check_all_files-result :
      (infos : List ContentInfo) (s s' : Files Q st box_id) (ok : Bool)
      → check_all_files Q st box_id infos s ≡ some (s', ok)
      → ok ≡ all (λ info. trust Q st box_id info s.1) infos
  unfolding check_all_files
  check_all_files-result [] s s' ok h = ground arith
  check_all_files-result (info ∷ infos) s s' ok h =
      elim (Option-cases (check_pointed Q st box_id info s)) [
        | inl e ↦ absurd (ground arith)
        | inr ((t, passed), e) ↦ elim (Bool-cases passed) [
          | inl p ↦
              let rest =
                subst (λ w. ok ≡ all (λ i. trust Q st box_id i w) infos)
                  (check_pointed_passed info s t passed e p)
                  (check_all_files-result infos t s' ok (ground arith)) in
              ground (arith, check_pointed-result info s t passed e)
          | inr n ↦ ground (arith, check_pointed-result info s t passed e)
        ]
      ]

  -- If it passes, the machine is as it was.
  pub check_all_files_passed :
      (infos : List ContentInfo) (s s' : Files Q st box_id) (ok : Bool)
      → check_all_files Q st box_id infos s ≡ some (s', ok)
      → ok ≡ true
      → s'.1 ≡ s.1
  unfolding check_all_files
  check_all_files_passed [] s s' ok h passed = ground arith
  check_all_files_passed (info ∷ infos) s s' ok h passed =
      elim (Option-cases (check_pointed Q st box_id info s)) [
        | inl e ↦ absurd (ground arith)
        | inr ((t, good), e) ↦
            ground
              (arith, check_pointed_passed info s t good e, check_all_files_passed infos t s' ok)
      ]
