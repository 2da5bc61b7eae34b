-- ===== src/Update.antt =====
-- updater/updatecontroller.cpp, updater/uploadmanager.cpp: one round of the service, from the
-- account's answer to the start of the download and upload managers.
pub mod Laws
pub mod Program
pub mod Service
use mediaupdater.Base.{
  ℕ, suc, String, ◌<>◌, Bool, true, false, not, ◌&&◌, ◌||◌, Option, none, some, List, [], ◌∷◌, ◌++◌,
  if◌then◌else◌, ◌==◌,
}
use mediaupdater.Base.Int.{ℤ, pos, int_eq, ltb_ℤ}
use mediaupdater.Base.Text.{before, split, has_char}
use mediaupdater.Qt.{Qt}
use mediaupdater.LoginInfo.{LoginInfo, login_info, set_port, is_valid}
use mediaupdater.Station.{Station, get_box_id, get_refresh_login, get_refresh_password}
use mediaupdater.Content.{Content, report}
use mediaupdater.Content.Build.{new_content}
use mediaupdater.Account.{
  Account, AccountError, Codec, new_account, set_login, set_password, request, check_value,
  is_no_error,
}
use mediaupdater.Download.{Downloads, emit, send}
use mediaupdater.Download
use mediaupdater.Download.Phases

-- `UploadManager`
pub record Upload : Type 0 where
  pub login_info : LoginInfo
  pub content : Option Content

module _ (Q : Qt) (st : Station) (C : Codec) where
  -- The machine is that of the download manager.
  pub record Controller : Type 0 where
    pub account : Account
    pub downloads : Downloads Q
    pub upload : Upload
    pub timer : Bool

  -- `start` of the upload manager: `address` is that of the new content.
  unfoldable pub start_upload : ℕ → Upload × Q.World → Upload × Q.World
  start_upload address (u, w) =
      let (c, w') = new_content Q st address report u.login_info.box_id false w in
      if is_valid u.login_info then (record u { content = some c }, w') else (u, w)

  unfoldable pub start_timer : Controller → Controller
  start_timer c = record c { timer = true }

  -- The request that goes out, if any.
  unfoldable pub start : AccountError → Controller → Controller × Option String
  start unset c =
      let w = c.downloads.world in
      let a =
        set_password (get_refresh_password Q st w)
          (set_login (get_refresh_login Q st w) (new_account unset)) in
      let (a', sent) = request Q C a in
      let c' = record c { account = a' } in
      elim sent [ none ↦ (start_timer c', none) | some url ↦ (c', some url) ]

  -- Host and port of `STHost`: the first two fields at colons, or the whole text and 0.
  unfoldable pub second_field : List String → String
  second_field (_ ∷ field ∷ _) = field
  second_field _ = ""

  unfoldable pub host_port : String → String × ℤ
  unfolding second_field
  host_port host =
      if has_char b':' host
      then (before b':' host, Q.parse_int (second_field (split b':' host)))
      else (host, pos 0)

  unfoldable pub login_of : Account → Q.World → LoginInfo
  unfolding host_port
  login_of a w =
      let value = λ (key : String). check_value Q C key a in
      let (host, port) = host_port (value "STHost") in
      let l =
        login_info (Q.number (get_box_id Q st w)) host (value "STLogin") (value "STPass")
          (value "STPrefix") in
      if port == pos 0 then l else set_port port l

  -- Both managers are set going.
  unfoldable pub launch : ℤ → ℕ → LoginInfo → Controller → Controller
  unfolding start_upload
  launch login_id address l c =
      let d = Phases.start Q st login_id (Download.set_login_info Q l c.downloads) in
      let (u, w) = start_upload address (record c.upload { login_info = l }, d.world) in
      record c { downloads = record d { world = w }; upload = u }

  unfoldable pub account_manager_ready : ℤ → ℕ → Controller → Controller
  unfolding login_of launch start_timer
  account_manager_ready login_id address c =
      let l = login_of c.account c.downloads.world in
      let failed = record c {
        downloads = emit Q (send "{update_error}" c.account.last_error) c.downloads;
      } in
      if not (is_no_error Q C c.account.error)
      then start_timer failed
      else if ltb_ℤ (Q.parse_int l.box_id) (pos 1)
      then start_timer c
      else launch login_id address l c
