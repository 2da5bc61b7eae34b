-- ===== src/Check/Laws.antt =====
-- CheckDownloadedContent: a mark that was set is seen, and a file without one is cleared away.
use mediaupdater.Base.{◌≡◌, ◌≢◌, String, true, false, arith}
use mediaupdater.Qt.{Qt, IsLawful}
use mediaupdater.Qt.Settings.{int_value-set_setting, bool_value-set_setting}
use mediaupdater.Station.{Station}
use mediaupdater.Content.{ContentInfo, Content, destination_slash}
use mediaupdater.Check.{
  CheckStatus, status_code, check_storage, mark_key, trust, set_trust, check_rev, set_rev,
  file_path, remove_unchecked, check_file,
}

module _ (Q : Qt) (st : Station) (box_id : String) where
  -- What the check answers is the mark, whatever it clears away.
  pub check_file-result :
      (info : ContentInfo) (c : Content) (w : Q.World)
      → (check_file Q st box_id info c w).2 ≡ trust Q st box_id info w
  unfolding check_file
  check_file-result info c w = ground arith

  -- The content keeps everything but the slash behind its destination.
  pub check_file-local :
      (info : ContentInfo) (c : Content) (w : Q.World)
      → c.local ≡ true
      → check_file Q st box_id info c w ≡ (c, w, trust Q st box_id info w)
  unfolding check_file
  check_file-local info c w h = ground arith

module _ (Q : Qt) (L : IsLawful Q) (st : Station) (box_id : String) where
  pub trust-set_trust :
      (info : ContentInfo) (w : Q.World)
      → trust Q st box_id info (set_trust Q st box_id info w) ≡ true
  unfolding trust set_trust
  trust-set_trust info w =
      bool_value-set_setting Q L (check_storage Q st box_id) (mark_key Q st box_id info) false true
        w

  -- A file that was marked passes the check, which then touches nothing.
  pub check_file-set_trust :
      (info : ContentInfo) (c : Content) (w : Q.World)
      → let w' = set_trust Q st box_id info w in check_file Q st box_id info c w' ≡ (c, w', true)
  unfolding check_file
  check_file-set_trust info c w = ground (arith, trust-set_trust info w)

  pub check_rev-set_rev :
      (file : String) (status : CheckStatus) (w : Q.World)
      → check_rev Q st box_id file (set_rev Q st box_id file status w) ≡ status_code status
  unfolding check_rev set_rev
  check_rev-set_rev file status w = int_value-set_setting Q L _ file _ (status_code status) w

  remove_unchecked_clears :
      (info : ContentInfo) (path : String) (w : Q.World)
      → trust Q st box_id info w ≡ false
      → (Q.remove_file path w).1 ≡ true
      → path ≢ check_storage Q st box_id
      → let w' = remove_unchecked Q st box_id info path w in
        (Q.exists path w' ≡ false) × (trust Q st box_id info w' ≡ false)
  unfolding remove_unchecked trust
  remove_unchecked_clears info path w h r d = ground (
    arith,
    L.exists-remove_file path w r,
    L.exists-remove_setting (check_storage Q st box_id) (mark_key Q st box_id info) path
        (Q.remove_file path w).0 d,
    L.setting-remove_setting (check_storage Q st box_id) (mark_key Q st box_id info)
        (Q.remove_file path w).0,
  )

  -- A file with no mark is gone after the check of a network content, and its mark is still
  -- missing, if the disk lets go of the file and it is not the store of the marks itself.
  pub check_file_clears :
      (info : ContentInfo) (c : Content) (w : Q.World)
      → let path = file_path Q st box_id info (destination_slash c).1 in
        trust Q st box_id info w ≡ false
        → c.local ≡ false
        → (Q.remove_file path w).1 ≡ true
        → path ≢ check_storage Q st box_id
        → let w' = (check_file Q st box_id info c w).1 in
          (Q.exists path w' ≡ false) × (trust Q st box_id info w' ≡ false)
  unfolding check_file
  check_file_clears info c w h l r d =
      let path = file_path Q st box_id info (destination_slash c).1 in
      ground (arith, remove_unchecked_clears info path w h r d)
