-- ===== src/Account/Store.antt =====
-- SettingsStore against what it promises: texts under names, plain, with the group put before a name.
use mediaupdater.Base.{
  ◌≡◌, refl, ap, sym, ◌∙◌, String, ◌<>◌, Bool, true, ◌&&◌, Option, none, some, List, [], ◌∷◌, arith,
  if◌then◌else◌, ◌==◌, string_eq, eq_true, Bool-cases, inl, inr, Option-cases,
}
use mediaupdater.Base.Text.{is_empty}
use mediaupdater.Qt.{Qt, IsLawful, is_normal}
use mediaupdater.Account.{
  Codec, IsSound, SettingsStore, full_store_key, set_group_key, store_value, set_store_value,
}

-- The calls of a client.
pub data Call : Type 0 where
  in_group : String → Call
  put get : String → String → Call

-- The store that is promised: the group, and the text under each full name.
pub record Plain : Type 0 where
  pub group : String
  pub text : String → Option String

abbrev full_name : String → String → String
full_name group key = if is_empty group then key else group <> ("/" <> key)

-- The answers to the calls of `get`, whose second argument is the text for a missing name.
unfoldable pub plain_answers : List Call → Plain → List String
plain_answers [] p = []
plain_answers (in_group group ∷ calls) p = plain_answers calls (record p { group = group })
plain_answers (put key val ∷ calls) p =
    plain_answers calls
      (record p { text = λ name. if full_name p.group key == name then some val else p.text name })
plain_answers (get key default ∷ calls) p =
    (elim (p.text (full_name p.group key)) [ none ↦ default | some val ↦ val ])
    ∷ plain_answers calls p

-- Names without slashes at an end and without two slashes that meet.
unfoldable pub are_named : List Call → String → Bool
are_named [] group = true
are_named (in_group other ∷ calls) group = are_named calls other
are_named (put key val ∷ calls) group = is_normal (full_name group key) && are_named calls group
are_named (get key default ∷ calls) group = is_normal (full_name group key) && are_named calls group

module _ (Q : Qt) (C : Codec) where
  -- The same calls of the store that encrypts.
  unfoldable pub answers : List Call → SettingsStore × Q.World → List String
  answers [] s = []
  answers (in_group group ∷ calls) (s, w) = answers calls (set_group_key group s, w)
  answers (put key val ∷ calls) (s, w) = answers calls (s, set_store_value Q C s key val w)
  answers (get key default ∷ calls) (s, w) = store_value Q C s key default w ∷ answers calls (s, w)

  -- What the file holds under a name.
  abbrev pub plain_of : Option Q.Variant → Option String
  plain_of none = none
  plain_of (some v) = some (C.decrypt (Q.to_text v))

  abbrev pub held : Q.World → String → Option String
  held w name = plain_of (Q.setting C.file name w)

  -- The store stands for a plain one.
  record Stands (s : SettingsStore) (w : Q.World) (p : Plain) : Type 0 where
    same_group : s.group_key ≡ p.group
    same_text : (name : String) → is_normal name ≡ true → held w name ≡ p.text name

module _ (Q : Qt) (L : IsLawful Q) (C : Codec) (S : IsSound C) where
  Stands-set_group_key :
      (group : String) (s : SettingsStore) (w : Q.World) (p : Plain)
      → Stands Q C s w p
      → Stands Q C (set_group_key group s) w (record p { group = group })
  unfolding set_group_key
  Stands-set_group_key group s w p r = record { same_group = ground arith; same_text = r.same_text }

  held-set_setting :
      (key val name : String) (w : Q.World)
      → is_normal key ≡ true
      → is_normal name ≡ true
      → held Q C (Q.set_setting C.file key (Q.of_text (C.encrypt val)) w) name
        ≡ (if key == name then some val else held Q C w name)
  held-set_setting key val name w n n' = elim (Bool-cases (key == name)) [
    | inl h ↦
        rw (h, sym (eq_true key name h))
          (ap (plain_of Q C) (L.setting-set_setting C.file key _ w)
            ∙ ap some (ap C.decrypt (L.to_text-of_text (C.encrypt val)) ∙ S.decrypt-encrypt val))
    | inr h ↦
        rw
          (
            h,
            L.setting-set_setting_ne C.file key (Q.of_text (C.encrypt val)) C.file name w n n'
                (λ e. ground arith),
          )
          refl
  ]

  Stands-set_store_value :
      (key val : String) (s : SettingsStore) (w : Q.World) (p : Plain)
      → is_normal (full_name p.group key) ≡ true
      → Stands Q C s w p
      → Stands Q C s (set_store_value Q C s key val w) (record p {
        text = λ name. if full_name p.group key == name then some val else p.text name;
      })
  unfolding set_store_value full_store_key
  Stands-set_store_value key val s w p n r = record {
    same_group = r.same_group;
    same_text = λ name n'.
        ap
          (λ g.
            held Q C (Q.set_setting C.file (full_name g key) (Q.of_text (C.encrypt val)) w) name)
          r.same_group
        ∙ held-set_setting (full_name p.group key) val name w n n'
        ∙ ap (λ old. if full_name p.group key == name then some val else old) (r.same_text name n');
  }

  default_of-held :
      (name default : String) (w : Q.World)
      → (elim (Q.setting C.file name w) as (λ x. String) [
        | none ↦ default
        | some v ↦ C.decrypt (Q.to_text v)
      ])
        ≡ (elim (held Q C w name) as (λ x. String) [ none ↦ default | some val ↦ val ])
  default_of-held name default w = elim (Option-cases (Q.setting C.file name w)) [
    | inl h ↦ rw h refl
    | inr (v, h) ↦ rw h refl
  ]

  store_value-plain :
      (key default : String) (s : SettingsStore) (w : Q.World) (p : Plain)
      → is_normal (full_name p.group key) ≡ true
      → Stands Q C s w p
      → store_value Q C s key default w
        ≡ (elim (p.text (full_name p.group key)) [ none ↦ default | some val ↦ val ])
  unfolding store_value full_store_key
  store_value-plain key default s w p n r =
      ap (λ g. store_value Q C (record { group_key = g }) key default w) r.same_group
      ∙ default_of-held (full_name p.group key) default w
      ∙ ap (λ o. elim o as (λ x. String) [ none ↦ default | some val ↦ val ]) (r.same_text _ n)

  answers-Stands :
      (calls : List Call) (s : SettingsStore) (w : Q.World) (p : Plain)
      → are_named calls p.group ≡ true
      → Stands Q C s w p
      → answers Q C calls (s, w) ≡ plain_answers calls p
  unfolding answers plain_answers are_named
  answers-Stands [] s w p n r = refl
  answers-Stands (in_group group ∷ calls) s w p n r =
      answers-Stands calls (set_group_key group s) w (record p { group = group }) n
        (Stands-set_group_key group s w p r)
  answers-Stands (put key val ∷ calls) s w p n r =
      answers-Stands calls s (set_store_value Q C s key val w) _ (ground arith)
        (Stands-set_store_value key val s w p (ground arith) r)
  answers-Stands (get key default ∷ calls) s w p n r =
      rw
        (
          store_value-plain key default s w p (ground arith) r,
          answers-Stands calls s w p (ground arith) r,
        )
        refl

  -- Any course of calls gets from the encrypted store the answers that plain texts under full names
  -- give, begun with what the file held before, where the full names have no slash at an end and no two
  -- that meet.
  pub answers-plain_answers :
      (calls : List Call) (s : SettingsStore) (w : Q.World)
      → are_named calls s.group_key ≡ true
      → answers Q C calls (s, w)
        ≡ plain_answers calls (record { group = s.group_key; text = held Q C w })
  answers-plain_answers calls s w n =
      answers-Stands calls s w _ n (record { same_group = refl; same_text = λ name n'. refl })
