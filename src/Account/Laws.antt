-- ===== src/Account/Laws.antt =====
-- SettingsStore and AccountManager: the cached answer, and what an account without error holds.
use mediaupdater.Base.{
  ◌≡◌, ◌≢◌, refl, ap, String, ◌<>◌, none, arith, if◌then◌else◌, string_eq, sym, ◌∙◌, ne_of_test,
}
use mediaupdater.Base.Text.{is_empty, split}
use mediaupdater.Qt.{Qt, IsLawful}
use mediaupdater.Manager.Files.{lookup}
use mediaupdater.Account.{
  Account, no_error, Codec, IsSound, SettingsStore, full_store_key, set_group_key, store_value,
  set_store_value, save_cache, try_load_cache, parse_json, reply_finished, Reply,
}

group_key-set_group_key :
    (group : String) (s : SettingsStore) → (set_group_key group s).group_key ≡ group
unfolding set_group_key
group_key-set_group_key group s = ground arith

full_store_key_group :
    (s : SettingsStore) (key group : String)
    → s.group_key ≡ group
    → full_store_key s key ≡ (if is_empty group then key else group <> ("/" <> key))
unfolding full_store_key
full_store_key_group s key group h = rw h

module _ (Q : Qt) (L : IsLawful Q) (C : Codec) (S : IsSound C) where
  store_value-set_store_value :
      (s t : SettingsStore) (key key' default val : String) (w : Q.World)
      → full_store_key t key' ≡ full_store_key s key
      → store_value Q C t key' default (set_store_value Q C s key val w) ≡ val
  unfolding store_value set_store_value
  store_value-set_store_value s t key key' default val w h = ground (
    arith,
    L.setting-set_setting C.file (full_store_key s key) (Q.of_text (C.encrypt val)) w,
    L.to_text-of_text (C.encrypt val),
    S.decrypt-encrypt val,
  )

  -- An answer that one account manager kept is what a new one, with no group set, loads.
  pub try_load_cache-save_cache :
      (json : String) (a b : Account) (w : Q.World)
      → b.store.group_key ≡ ""
      → try_load_cache Q C b (save_cache Q C json (a, w)).1 ≡ json
  unfolding try_load_cache save_cache
  try_load_cache-save_cache json a b w fresh =
      let kept = set_group_key "login" a.store in
      let key =
        full_store_key_group b.store "login/prefs" "" fresh
        ∙ sym
            (full_store_key_group kept "prefs" "login" (group_key-set_group_key "login" a.store)) in
      ap Q.from_base64
        (store_value-set_store_value kept b.store "prefs" "login/prefs" "" (Q.to_base64 json) w key)
      ∙ L.from_base64-to_base64 json

  -- The account manager that kept an answer looks under its group for a key that names the
  -- group again: it loads nothing, if nothing was stored under that key.
  pub try_load_cache_same :
      (json : String) (a : Account) (w : Q.World)
      → Q.setting C.file "login/login/prefs" w ≡ none
      → let (a', w') = save_cache Q C json (a, w) in try_load_cache Q C a' w' ≡ Q.from_base64 ""
  unfolding try_load_cache save_cache store_value set_store_value split
  try_load_cache_same json a w free =
      let kept = set_group_key "login" a.store in
      let in_group = group_key-set_group_key "login" a.store in
      ground (
        arith,
        full_store_key_group kept "prefs" "login" in_group,
        full_store_key_group kept "login/prefs" "login" in_group,
        L.setting-set_setting_ne C.file "login/prefs" (Q.of_text (C.encrypt (Q.to_base64 json)))
            C.file "login/login/prefs" w refl refl
            (ne_of_test "login/prefs" "login/login/prefs" refl),
      )

module _ (Q : Qt) (C : Codec) where
  parse_json_no_error :
      (text : String) (a : Account)
      → (parse_json Q C text a).error ≡ no_error
      → a.error ≡ no_error
      → lookup "error" (parse_json Q C text a).json ≡ none
  unfolding parse_json
  parse_json_no_error text a h e = ground arith

  -- If a reply leaves an account that had no error without one, then the account's data hold no
  -- error message.
  reply_finished_no_error :
      (r : Reply) (a : Account) (w : Q.World)
      → a.error ≡ no_error
      → (reply_finished Q C r (a, w)).0.error ≡ no_error
      → lookup "error" (reply_finished Q C r (a, w)).0.json ≡ none
  unfolding reply_finished
  reply_finished_no_error r a w fresh h = ground (
    arith,
    parse_json_no_error (Q.from_base64 r.bytes) a,
    parse_json_no_error (try_load_cache Q C a w) a,
  )

  -- A reply that leaves an error leaves the cache, and all of the machine, as it was.
  reply_finished_cache :
      (r : Reply) (a : Account) (w : Q.World)
      → (reply_finished Q C r (a, w)).0.error ≢ no_error
      → (reply_finished Q C r (a, w)).1 ≡ w
  unfolding reply_finished
  reply_finished_cache r a w h = ground arith
