-- ===== src/Manager/Files.antt =====
-- QMap<QString, SContentInfo>: entries in the order of their keys.
use text.Mathlib.Text
use Prim.Native.String.{compare}
use mediaupdater.Base.{
  ◌≡◌, refl, String, Bool, Option, none, some, List, [], ◌∷◌, arith, if◌then◌else◌, ◌==◌, string_eq,
}

-- The order of the keys.
unfoldable pub before : String → String → Bool
before j k = Text.is_lt (compare j k)

module _ {ℓ} {V : Type ℓ} where
  unfoldable pub lookup : String → List (String × V) → Option V
  lookup k [] = none
  lookup k ((j, v) ∷ d) = if j == k then some v else lookup k d

  -- `map[k] = v`
  unfoldable pub insert : String → V → List (String × V) → List (String × V)
  unfolding before
  insert k v [] = (k, v) ∷ []
  insert k v ((j, u) ∷ d) =
      let rest = insert k v d in
      if j == k then (k, v) ∷ d else if before k j then (k, v) ∷ (j, u) ∷ d else (j, u) ∷ rest

  unfoldable pub values : List (String × V) → List V
  values [] = []
  values ((k, v) ∷ d) = v ∷ values d

  pub lookup-insert :
      (k j : String) (v : V) (d : List (String × V))
      → lookup j (insert k v d) ≡ (if k == j then some v else lookup j d)
  unfolding lookup insert
  lookup-insert k j v [] = refl
  lookup-insert k j v ((i, u) ∷ d) = ground (arith, lookup-insert k j v d)
