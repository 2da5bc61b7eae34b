-- ===== src/Content/Collect/Channels.antt =====
-- Content::collectContentFromFile on a channel table: which entries end up in the two lists of a
-- content of either kind, whatever the checks of its files do to the machine.
use mediaupdater.Base.{
  ◌≡◌, refl, ap, sym, subst, not, ◌&&◌, ◌∙◌, String, Bool, List, [], ◌∷◌, ◌++◌, Bool-cases, inl,
  inr, if_both, ◌||◌,
}
use mediaupdater.Base.Lists.{append_nil, append_assoc}
use mediaupdater.Base.Text.{is_empty}
use mediaupdater.Qt.{Qt}
use mediaupdater.Station.{Station}
use mediaupdater.Content.{ContentInfo, Content, info_at, append_info, destination_slash}
use mediaupdater.Content.Collect.{channel_dir, channel_file, channel_line, channel_lines}
use mediaupdater.Content.Collect.Missing.{
  missing, relisted, copied_path, check_file-relisted, check_file_keeps, check_exist_file_at,
  missing-relisted,
}
use mediaupdater.Content.Collect.Laws.{channel_entries}
use mediaupdater.Check.{check_file, trust}

-- A content after entries were added to its standard files and to its sources.
pub record Adds (c c' : Content) (standard sources : List ContentInfo) : Type 0 where
  pub address : c'.address ≡ c.address
  pub standart_source_files : c'.standart_source_files ≡ c.standart_source_files ++ standard
  pub source_list : c'.source_list ≡ c.source_list ++ sources

pub none_added : (c : Content) → Adds c c [] []
none_added c = record {
  address = refl;
  standart_source_files = sym (append_nil c.standart_source_files);
  source_list = sym (append_nil c.source_list);
}

pub added_twice :
    {c c' c'' : Content} {standard sources standard' sources' : List ContentInfo}
    → Adds c c' standard sources
    → Adds c' c'' standard' sources'
    → Adds c c'' (standard ++ standard') (sources ++ sources')
added_twice {c} {c'} {c''} {standard} {sources} {standard'} {sources'} a b = record {
  address = b.address ∙ a.address;
  standart_source_files =
      b.standart_source_files
      ∙ ap (λ l. l ++ standard') a.standart_source_files
      ∙ append_assoc c.standart_source_files standard standard';
  source_list =
      b.source_list
      ∙ ap (λ l. l ++ sources') a.source_list
      ∙ append_assoc c.source_list sources sources';
}

module _ (Q : Qt) (st : Station) where
  pub check_file-Adds :
      (box_id : String) (info : ContentInfo) (c : Content) (w : Q.World)
      → Adds c (check_file Q st box_id info c w).0 [] []
  unfolding check_file destination_slash
  check_file-Adds box_id info c w =
      let nothing = none_added c in
      if_both (λ (r : Content × Q.World × Bool). Adds c r.0 [] [])
        (not (trust Q st box_id info w) && not c.local) _ (c, w, trust Q st box_id info w)
        (record {
          address = refl;
          standart_source_files = nothing.standart_source_files;
          source_list = nothing.source_list;
        })
        nothing

  -- One line of the table that is not empty.
  channel_line_at :
      (line : String) (c : Content) (w : Q.World)
      → let entry = info_at c.address (channel_dir line) (channel_file line) in
        let (c', w', ok) = check_file Q st c.box_id entry c w in
        channel_line Q st line (c, w) ≡ (
          relisted Q st
              (c.source_list ++ missing Q st (entry ∷ []) c w)
              (c.standart_source_files ++ (entry ∷ []))
              c',
          w',
        )
  unfolding channel_line append_info missing
  channel_line_at line c w =
      let dir = channel_dir line in
      let file = channel_file line in
      let entry = info_at c.address dir file in
      let listed = relisted Q st c.source_list (c.standart_source_files ++ (entry ∷ [])) c in
      let (c', w', ok) = check_file Q st c.box_id entry c w in
      let (same, _, _, _) = check_file_keeps Q st c.box_id entry c w in
      elim (Bool-cases
        (trust Q st c.box_id entry w || Q.exists (copied_path Q st c.content_type entry) w')) [
          | inl e ↦
              rw
                (
                  check_exist_file_at Q st dir file listed w,
                  check_file-relisted Q st c.box_id entry c.source_list
                      (c.standart_source_files ++ (entry ∷ [])) c w,
                  e,
                  append_nil c.source_list,
                )
                refl
          | inr e ↦
              rw
                (
                  check_exist_file_at Q st dir file listed w,
                  check_file-relisted Q st c.box_id entry c.source_list
                      (c.standart_source_files ++ (entry ∷ [])) c w,
                  e,
                  same,
                )
                refl
        ]

  -- What is missing of one entry and the rest.
  missing-cons :
      (info : ContentInfo) (infos : List ContentInfo) (c : Content) (w : Q.World)
      → let (c', w', ok) = check_file Q st c.box_id info c w in
        missing Q st (info ∷ []) c w ++ missing Q st infos c' w' ≡ missing Q st (info ∷ infos) c w
  unfolding missing
  missing-cons info infos c w =
      let (c', w', ok) = check_file Q st c.box_id info c w in
      elim (Bool-cases
        (trust Q st c.box_id info w || Q.exists (copied_path Q st c.content_type info) w')) [
          | inl e ↦ rw e refl
          | inr e ↦ rw e refl
        ]

  channel_lines-Adds :
      (lines : List String) (c : Content) (w : Q.World)
      → let entries = channel_entries c.address lines in
        Adds c (channel_lines Q st lines (c, w)).0 entries (missing Q st entries c w)
  unfolding channel_lines missing
  channel_lines-Adds [] c w = none_added c
  channel_lines-Adds (line ∷ lines) c w = elim (Bool-cases (is_empty line)) [
    | inl e ↦ rw (channel_lines, e) (channel_lines-Adds lines c w)
    | inr e ↦
        let entry = info_at c.address (channel_dir line) (channel_file line) in
        let (c', w', ok) = check_file Q st c.box_id entry c w in
        let (address, _, _, _) = check_file_keeps Q st c.box_id entry c w in
        let sources = c.source_list ++ missing Q st (entry ∷ []) c w in
        let standard = c.standart_source_files ++ (entry ∷ []) in
        let then = relisted Q st sources standard c' in
        let entries = channel_entries c.address lines in
        let later : Adds then (channel_lines Q st lines (then, w')).0 entries
            (missing Q st entries c' w') =
          subst (λ l. Adds then (channel_lines Q st lines (then, w')).0 entries l)
            (missing-relisted Q st entries sources standard c' w')
            (subst
              (λ a.
                Adds then (channel_lines Q st lines (then, w')).0 (channel_entries a lines)
                  (missing Q st (channel_entries a lines) then w'))
              address (channel_lines-Adds lines then w')) in
        let first : Adds c then (entry ∷ []) (missing Q st (entry ∷ []) c w) = record {
          address = address;
          standart_source_files = refl;
          source_list = refl;
        } in
        rw (channel_lines, e, channel_line_at line c w)
          (subst (λ l. Adds c (channel_lines Q st lines (then, w')).0 (entry ∷ entries) l)
            (missing-cons entry entries c w) (added_twice first later))
  ]

  -- A channel table adds all its entries to the standard files of a content, in their order, and to
  -- the sources, in the same order, those that are missing; no file that was listed before is lost.
  pub channel_lines-channel_entries :
      (lines : List String) (c : Content) (w : Q.World)
      → let c' = (channel_lines Q st lines (c, w)).0 in
        let entries = channel_entries c.address lines in
        (c'.standart_source_files ≡ c.standart_source_files ++ entries)
        × (c'.source_list ≡ c.source_list ++ missing Q st entries c w)
  channel_lines-channel_entries lines c w =
      let adds = channel_lines-Adds lines c w in (adds.standart_source_files, adds.source_list)
