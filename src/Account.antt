-- ===== src/Account.antt =====
-- managetools/settingsstore.h and .cpp, accountmanager.h and .cpp: the account's data from the
-- server, and the copy of the last good answer, kept encrypted in account.dat.
pub mod Laws
pub mod Store
pub mod Values
use mediaupdater.Base.{
  ℕ, String, ◌<>◌, Bool, true, false, not, ◌&&◌, ◌||◌, Option, none, some, List, [], ◌∷◌, ◌++◌,
  if◌then◌else◌, ◌==◌, string_eq, ◌≡◌, ◌⊎◌, inl, inr,
}
use mediaupdater.Base.Int.{ℤ, pos, negsuc}
use mediaupdater.Base.Text.{is_empty}
use mediaupdater.Qt.{Qt}
use mediaupdater.Manager.Files.{lookup, insert}

-- QJsonDocument of an answer: `array()`, each element as an object, and `object()`; the members
-- of an object are its keys, in order, with `value(key).toString()`.
abbrev pub Members : Type 0
Members = List (String × String)

pub record Document : Type 0 where
  pub array : List Members
  pub object : Members

-- SimpleCrypt (vendored) with the key from the constructor, QJsonDocument::fromJson, which gives the
-- document or the text of its error, and the file behind the store.
pub record Codec : Type 0 where
  pub encrypt : String → String
  pub decrypt : String → String
  pub parse : String → Document ⊎ String
  pub file : String

-- What the documentation of SimpleCrypt says of one key.
pub record IsSound (C : Codec) : Type 0 where
  pub decrypt-encrypt : (s : String) → C.decrypt (C.encrypt s) ≡ s

-- `SettingsStore`: the group is the state of the object, and the values are in the file.
pub record SettingsStore : Type 0 where
  pub group_key : String

unfoldable pub full_store_key : SettingsStore → String → String
full_store_key s key = if is_empty s.group_key then key else s.group_key <> ("/" <> key)

unfoldable pub set_group_key : String → SettingsStore → SettingsStore
set_group_key group s = if s.group_key == group then s else record s { group_key = group }

pub data AccountError : Type 0 where
  no_error reply_error parse_json_error answer_json_error login_password_error : AccountError
  reply_is_empty : AccountError

pub record Account : Type 0 where
  pub store : SettingsStore
  pub last_error : String
  pub json : List (String × String)
  pub login : String
  pub password : String
  pub error : AccountError
  pub hash : String
  pub timed_out : Bool
  -- `mCurrentReply` is not null
  pub reply : Bool

unfoldable pub new_account : AccountError → Account
new_account unset = record {
  store = record { group_key = "" };
  last_error = "";
  json = [];
  login = "";
  password = "";
  error = unset;
  hash = "";
  timed_out = false;
  reply = false;
}

abbrev pub set_login : String → Account → Account
set_login login a = record a { login = login }

abbrev pub set_password : String → Account → Account
set_password password a = record a { password = password }

abbrev pub set_hash : String → Account → Account
set_hash hash a = record a { hash = hash }

-- What the reply says when it finished: whether its error is `NoError`, its text and its data.
pub record Reply : Type 0 where
  pub no_error : Bool
  pub error_string : String
  pub bytes : String

-- The object that is read: the first of the array, if there is one.
unfoldable pub first_object : List Members → Members → Members
first_object [] object = object
first_object (first ∷ _) object = first

module _ (Q : Qt) (C : Codec) where
  unfoldable pub store_value : SettingsStore → String → String → Q.World → String
  unfolding full_store_key
  store_value s key default w = elim (Q.setting C.file (full_store_key s key) w) [
    | none ↦ default
    | some v ↦ C.decrypt (Q.to_text v)
  ]

  unfoldable pub set_store_value : SettingsStore → String → String → Q.World → Q.World
  unfolding full_store_key
  set_store_value s key val w =
      Q.set_setting C.file (full_store_key s key) (Q.of_text (C.encrypt val)) w

  -- The request that is sent, or `none` with the error set.
  unfoldable pub request_url : Account → String
  request_url a =
      "http://account2.lampmusic.ru/verify1.php?acid="
      <> (a.login
          <> ("=&acidh=" <> (a.password <> (if is_empty a.hash then "" else "&hash=" <> a.hash))))

  unfoldable pub request : Account → Account × Option String
  unfolding request_url
  request a =
      let fresh = record a { json = []; timed_out = false; error = no_error } in
      if is_empty a.login || is_empty a.password
      then (
        record fresh { last_error = "Login or password is empty."; error = login_password_error },
        none,
      )
      else (record fresh { reply = true }, some (request_url a))

  -- The members, under lower-case keys.
  unfoldable pub store_members :
      List (String × String) → List (String × String) → List (String × String)
  store_members [] json = json
  store_members ((key, value) ∷ members) json =
      store_members members (insert (Q.to_lower key) value json)

  unfoldable pub parse_json : String → Account → Account
  unfolding store_members first_object
  parse_json text a = elim (C.parse text) [
    | inr message ↦ record a {
      last_error = "Parse JSON error: " <> message;
      error = parse_json_error;
    }
    | inl doc ↦
        let json = store_members (first_object doc.array doc.object) a.json in
        elim (lookup "error" json) [
          | none ↦ record a { json = json }
          | some message ↦ record a { json = json; last_error = message; error = answer_json_error }
        ]
  ]

  unfoldable pub save_cache : String → Account × Q.World → Account × Q.World
  unfolding set_group_key set_store_value
  save_cache json (a, w) =
      let store = set_group_key "login" a.store in
      (record a { store = store }, set_store_value store "prefs" (Q.to_base64 json) w)

  unfoldable pub try_load_cache : Account → Q.World → String
  unfolding store_value
  try_load_cache a w = Q.from_base64 (store_value a.store "login/prefs" "" w)

  abbrev pub is_no_error : AccountError → Bool
  is_no_error no_error = true
  is_no_error _ = false

  -- A reply that came in time: parsed, and kept if there was no error.
  unfoldable pub take_answer : String → Account × Q.World → Account × Q.World
  unfolding parse_json save_cache
  take_answer bytes (a, w) =
      let text = Q.from_base64 bytes in
      let parsed = parse_json text a in
      let saved = save_cache text (parsed, w) in
      if is_empty bytes
      then (record a { last_error = "WARNING: Server answer is empty."; error = reply_is_empty }, w)
      else if is_no_error parsed.error
      then saved
      else (parsed, w)

  -- No reply, or too late: the last good answer is taken instead.
  unfoldable pub take_cache : Reply → Account × Q.World → Account × Q.World
  unfolding parse_json try_load_cache
  take_cache r (a, w) =
      let text = try_load_cache a w in
      let parsed = parse_json text a in
      if is_empty text
      then (
        record a {
          last_error = "WARNING: Cache is empty. ReplyError:" <> r.error_string;
          error = reply_error;
        },
        w,
      )
      else (parsed, w)

  unfoldable pub reply_finished : Reply → Account × Q.World → Account × Q.World
  unfolding take_answer take_cache
  reply_finished r (a, w) =
      let taken = take_answer r.bytes (a, w) in
      let cached = take_cache r (a, w) in if r.no_error && not a.timed_out then taken else cached

  unfoldable pub check_value : String → Account → String
  check_value key a = elim (lookup (Q.to_lower key) a.json) [ none ↦ "" | some v ↦ v ]

  unfoldable pub int_of : String → Account → ℤ
  unfolding check_value
  int_of key a = Q.parse_int (check_value key a)

  -- `requestTimeout`; the flag says whether the reply is aborted
  unfoldable pub request_timeout : Account → Account × Bool
  request_timeout a = (record a { timed_out = true; reply = false }, a.reply)
