-- ===== src/Content/Collect/Missing.antt =====
-- Content::checkExistFile over a list of entries: which of them are missing.
use mediaupdater.Base.{
  ◌≡◌, refl, ap, not, ◌&&◌, ◌||◌, String, ◌<>◌, List, [], ◌∷◌, Bool-cases, inl, inr, if◌then◌else◌,
  arith,
}
use mediaupdater.Qt.{Qt}
use mediaupdater.Station.{Station, media}
use mediaupdater.Content.{ContentType, ContentInfo, Content, destination_slash, info_at}
use mediaupdater.Content.Collect.{check_exist_file, local_dir}
use mediaupdater.Check.{check_file, trust}

module _ (Q : Qt) (st : Station) where
  -- Where a file of a content of the type lies once it was copied.
  abbrev pub copied_path : ContentType → ContentInfo → String
  copied_path type info =
      media Q st "" <> (local_dir type <> (info.dir_name <> ("/" <> info.file_name)))

  -- The entries that are neither marked as whole nor, after the check of the file, on the disk. The
  -- checks go on, one after the other, on the machine that the one before left.
  unfoldable pub missing : List ContentInfo → Content → Q.World → List ContentInfo
  missing [] c w = []
  missing (info ∷ infos) c w =
      let (c', w', ok) = check_file Q st c.box_id info c w in
      let rest = missing infos c' w' in
      if trust Q st c.box_id info w || Q.exists (copied_path c.content_type info) w'
      then rest
      else info ∷ rest

  -- The same content with other lists.
  abbrev pub relisted : List ContentInfo → List ContentInfo → Content → Content
  relisted sources standard c = record c { source_list = sources; standart_source_files = standard }

  pub check_file-relisted :
      (box_id : String) (info : ContentInfo) (sources standard : List ContentInfo) (c : Content)
      (w : Q.World)
      → let (c', w', ok) = check_file Q st box_id info c w in
        check_file Q st box_id info (relisted sources standard c) w
        ≡ (relisted sources standard c', w', ok)
  unfolding check_file destination_slash
  check_file-relisted box_id info sources standard c w =
      elim (Bool-cases (not (trust Q st box_id info w) && not c.local)) [
        | inl e ↦ rw e refl
        | inr e ↦ rw e refl
      ]

  pub missing-relisted :
      (infos sources standard : List ContentInfo) (c : Content) (w : Q.World)
      → missing infos (relisted sources standard c) w ≡ missing infos c w
  unfolding missing
  missing-relisted [] sources standard c w = refl
  missing-relisted (info ∷ infos) sources standard c w =
      let (c', w', ok) = check_file Q st c.box_id info c w in
      rw
        (
          missing,
          check_file-relisted c.box_id info sources standard c w,
          missing-relisted infos sources standard c' w',
        )
        refl

  -- Of the members that the checks look at, none changes but the directory's slash.
  pub check_file_keeps :
      (box_id : String) (info : ContentInfo) (c : Content) (w : Q.World)
      → let (c', w', ok) = check_file Q st box_id info c w in
        (c'.address ≡ c.address)
        × (relisted c.source_list c.standart_source_files c' ≡ c')
        × (c'.content_type ≡ c.content_type)
        × (ok ≡ trust Q st box_id info w)
  unfolding check_file destination_slash
  check_file_keeps box_id info c w =
      elim (Bool-cases (not (trust Q st box_id info w) && not c.local)) [
        | inl e ↦ rw e (refl, refl, refl, ground (arith, e))
        | inr e ↦ rw e (refl, refl, refl, refl)
      ]

  pub check_exist_file_at :
      (dir file : String) (c : Content) (w : Q.World)
      → let info = info_at c.address dir file in
        let (c', w', ok) = check_file Q st c.box_id info c w in
        check_exist_file Q st dir file (c, w)
        ≡ ((c', w'), trust Q st c.box_id info w || Q.exists (copied_path c.content_type info) w')
  unfolding check_exist_file info_at
  check_exist_file_at dir file c w =
      let info = info_at c.address dir file in
      let (_, _, _, same) = check_file_keeps c.box_id info c w in
      let (c', w', ok) = check_file Q st c.box_id info c w in
      ap (λ b. ((c', w'), b || Q.exists (copied_path c.content_type info) w')) same
