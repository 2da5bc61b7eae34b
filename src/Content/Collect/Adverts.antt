-- ===== src/Content/Collect/Adverts.antt =====
-- Content::collectContentFromFile on the advert table: which entries end up in the two lists.
use mediaupdater.Base.{
  ◌||◌, ℕ, ◌≡◌, refl, ap, sym, subst, ◌∙◌, String, true, false, List, [], ◌∷◌, ◌++◌, if◌then◌else◌,
  Bool-cases, inl, inr, some,
}
use mediaupdater.Base.Lists.{append_nil}
use mediaupdater.Base.Text.{is_empty, before, split}
use mediaupdater.Qt.{Qt}
use mediaupdater.Station.{Station, advert_dir}
use mediaupdater.Content.{ContentInfo, Content, info_at, append_info, append_infos}
use mediaupdater.Content.Collect.{advert_lines, collect_adverts, table_text}
use mediaupdater.Content.Collect.Channels.{Adds, none_added, added_twice, check_file-Adds}
use mediaupdater.Content.Collect.Missing.{
  missing, copied_path, check_file_keeps, check_exist_file_at,
}
use mediaupdater.Check.{check_file, trust}

-- The adverts that a table names: the first field of every line where it is not empty.
abbrev pub advert_names : List String → List String
advert_names [] = []
advert_names (line ∷ lines) =
    if is_empty (before b';' line)
    then advert_names lines
    else before b';' line ∷ advert_names lines

abbrev pub entries_at : ℕ → String → List String → List ContentInfo
entries_at a dir [] = []
entries_at a dir (name ∷ names) = info_at a dir name ∷ entries_at a dir names

append_infos-standard :
    (dir : String) (files : List String) (c : Content)
    → Adds c (append_infos dir files true c) (entries_at c.address dir files) []
unfolding append_infos append_info
append_infos-standard dir [] c = none_added c
append_infos-standard dir (file ∷ files) c =
    added_twice
      (record {
        address = refl;
        standart_source_files = refl;
        source_list = sym (append_nil c.source_list);
      })
      (append_infos-standard dir files (append_info dir file true c))

append_infos-sources :
    (dir : String) (files : List String) (c : Content)
    → Adds c (append_infos dir files false c) [] (entries_at c.address dir files)
unfolding append_infos append_info
append_infos-sources dir [] c = none_added c
append_infos-sources dir (file ∷ files) c =
    added_twice
      (record {
        address = refl;
        standart_source_files = sym (append_nil c.standart_source_files);
        source_list = refl;
      })
      (append_infos-sources dir files (append_info dir file false c))

module _ (Q : Qt) (st : Station) where
  -- The checks leave the lists alone, and give the names of the missing entries and all names.
  advert_lines-Adds :
      (dir : String) (lines : List String) (c : Content) (w : Q.World)
      → let ((c', w'), absent, every) = advert_lines Q st dir lines (c, w) in
        Adds c c' [] []
        × (every ≡ advert_names lines)
        × (entries_at c.address dir absent ≡ missing Q st (entries_at c.address dir every) c w)
  unfolding advert_lines missing
  advert_lines-Adds dir [] c w = (none_added c, refl, refl)
  advert_lines-Adds dir (line ∷ lines) c w = elim (Bool-cases (is_empty (before b';' line))) [
    | inl e ↦ rw (advert_lines, e) (advert_lines-Adds dir lines c w)
    | inr e ↦
        let name = before b';' line in
        let here = info_at c.address dir name in
        let (c', w', ok) = check_file Q st c.box_id here c w in
        let (t, absent, every) = advert_lines Q st dir lines (c', w') in
        let (adds, names, same) = advert_lines-Adds dir lines c' w' in
        let (address, _, _, _) = check_file_keeps Q st c.box_id here c w in
        let both =
          subst (λ a. entries_at a dir absent ≡ missing Q st (entries_at a dir every) c' w') address
            same in
        let known =
          trust Q st c.box_id here w || Q.exists (copied_path Q st c.content_type here) w' in
        rw (advert_lines, e, check_exist_file_at Q st dir name c w)
          (
            added_twice (check_file-Adds Q st c.box_id here c w) adds,
            ap (λ l. name ∷ l) names,
            elim (Bool-cases known) [
              | inl k ↦ rw (missing, k) both
              | inr k ↦ rw (missing, k) (ap (λ l. here ∷ l) both)
            ],
          )
  ]

  -- An advert table that is whole and can be read adds all adverts that it names to the standard
  -- files of a content, in their order, and to the sources, in the same order, those that are
  -- missing; no file that was listed before is lost.
  pub collect_adverts-advert_names :
      (file text : String) (c : Content) (w : Q.World)
      → table_text Q st c.box_id file w ≡ some text
      → let c' = (collect_adverts Q st file (c, w)).0 in
        let entries = entries_at c.address advert_dir (advert_names (split b'\n' text)) in
        (c'.standart_source_files ≡ c.standart_source_files ++ entries)
        × (c'.source_list ≡ c.source_list ++ missing Q st entries c w)
  unfolding collect_adverts
  collect_adverts-advert_names file text c w h =
      let ((c', w'), absent, every) = advert_lines Q st advert_dir (split b'\n' text) (c, w) in
      let (adds, names, same) = advert_lines-Adds advert_dir (split b'\n' text) c w in
      let c'' = append_infos advert_dir absent false c' in
      let sourced = append_infos-sources advert_dir absent c' in
      let all =
        added_twice adds (added_twice sourced (append_infos-standard advert_dir every c'')) in
      rw (collect_adverts, h)
        (
          all.standart_source_files
              ∙ ap (λ a. c.standart_source_files ++ entries_at a advert_dir every)
                  (sourced.address ∙ adds.address)
              ∙ ap (λ l. c.standart_source_files ++ entries_at c.address advert_dir l) names,
          all.source_list
              ∙ ap (λ l. c.source_list ++ l)
                  (append_nil (entries_at c'.address advert_dir absent)
                    ∙ ap (λ a. entries_at a advert_dir absent) adds.address
                    ∙ same
                    ∙ ap (λ l. missing Q st (entries_at c.address advert_dir l) c w) names),
        )
