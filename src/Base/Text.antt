-- ===== src/Base/Text.antt =====
-- The operations of `QString` that the sources use, over the native `String`.
use Prim.Native.Char.{Char, code}
use Prim.Native.Nat.{ℕ}
use Prim.Native.String.{String, [], ◌∷◌, ◌++◌ as ◌<>◌}
use mathlib.Core.Path.{◌≡◌, refl, ap, sym, ◌∙◌}
use mathlib.Core.Logic.{inl, inr}
use mathlib.Core.Bool.{Bool, true, false, ◌||◌}
use mathlib.Core.List.{List, [], ◌∷◌}
use native.Mathlib.Omega.{arith}
use text.Mathlib.TextLemmas.{cons-append, nil-append, append-nil, append_assoc}
use mediaupdater.Base.Equality.{if◌then◌else◌, ◌==◌, nat_eq, Bool-cases}

abbrev push : String → Char → String
push s c = s <> (c ∷ [])

-- `isEmpty()`
abbrev pub is_empty : String → Bool
is_empty [] = true
is_empty (c ∷ s) = false

ends_from : ℕ → Bool → String → Bool
ends_from k last [] = last
ends_from k last (c ∷ s) = ends_from k (code c == k) s

-- `right(1) == "c"`, the separator given by its code
unfoldable pub ends_with : ℕ → String → Bool
unfolding ends_from nat_eq
ends_with k s = ends_from k false s

split_from : ℕ → String → String → List String
split_from k cur [] = cur ∷ []
split_from k cur (c ∷ s) = elim (code c == k) [
  | true ↦ cur ∷ split_from k "" s
  | false ↦ split_from k (push cur c) s
]

-- `split(c)`: the fields between the separators, empty ones kept
unfoldable pub split : ℕ → String → List String
unfolding split_from nat_eq
split k s = split_from k "" s

-- `indexOf(c) != -1`
unfoldable pub has_char : ℕ → String → Bool
unfolding nat_eq
has_char k [] = false
has_char k (c ∷ s) = code c == k || has_char k s

before_from : ℕ → String → String → String
before_from k cur [] = cur
before_from k cur (c ∷ s) = elim (code c == k) [ true ↦ cur | false ↦ before_from k (push cur c) s ]

-- `section(c, 0, 0)` and `split(c)[0]`: the first field
unfoldable pub before : ℕ → String → String
unfolding before_from nat_eq
before k s = before_from k "" s

after_last_from : ℕ → String → String → String
after_last_from k cur [] = cur
after_last_from k cur (c ∷ s) = after_last_from k (if code c == k then "" else push cur c) s

-- `section(c, -1)`: the last field
unfoldable pub after_last : ℕ → String → String
unfolding after_last_from nat_eq
after_last k s = after_last_from k "" s

-- A path with a slash behind it, unless it is empty or has one.
unfoldable pub with_slash : String → String
unfolding ends_with
with_slash s = if is_empty s then s else if ends_with b'/' s then s else s <> "/"

ends_from-append :
    (k : ℕ) (last : Bool) (s : String) (c : Char) → ends_from k last (s <> (c ∷ [])) ≡ (code c == k)
unfolding ends_from
ends_from-append k last [] c = rw nil-append
ends_from-append k last (d ∷ s) c = rw cons-append (ends_from-append k (code d == k) s c)

pub ends_with-slash : (s : String) → ends_with b'/' (s <> "/") ≡ true
unfolding ends_with nat_eq
ends_with-slash s = ends_from-append b'/' false s _

-- The result is empty, or it ends in a slash.
pub with_slash-ends : (s : String) → is_empty s ≡ false → ends_with b'/' (with_slash s) ≡ true
unfolding with_slash
with_slash-ends s h = ground (arith, ends_with-slash s)

is_empty-with_slash : (s : String) → is_empty (with_slash s) ≡ is_empty s
unfolding with_slash
is_empty-with_slash [] = refl
is_empty-with_slash (c ∷ s) = elim (Bool-cases (ends_with b'/' (c ∷ s))) [
  | inl e ↦ rw e
  | inr e ↦ rw (e, cons-append)
]

-- A text that is empty or ends in a slash stays.
with_slash_fixed : (s : String) → (is_empty s ≡ false → ends_with b'/' s ≡ true) → with_slash s ≡ s
unfolding with_slash
with_slash_fixed s h = ground (arith, Bool-cases (is_empty s))

pub with_slash_idem : (s : String) → with_slash (with_slash s) ≡ with_slash s
with_slash_idem s =
    with_slash_fixed (with_slash s) (λ h. with_slash-ends s (sym (is_empty-with_slash s) ∙ h))

push-append : (cur : String) (d : Char) (s : String) → push cur d <> s ≡ cur <> (d ∷ s)
push-append cur d s =
    append_assoc cur (d ∷ []) s
    ∙ ap (λ t. cur <> t) (cons-append d [] s ∙ ap (λ t. d ∷ t) (nil-append s))

neither : (a b : Bool) → a || b ≡ false → (a ≡ false) × (b ≡ false)
neither a b h = (ground arith, ground arith)

-- A text in which the separator does not occur is one field, and ends at the first separator after it.
split_from_plain :
    (k : ℕ) (cur s : String) → has_char k s ≡ false → split_from k cur s ≡ (cur <> s) ∷ []
unfolding split_from has_char
split_from_plain k cur [] h = ap (λ t. t ∷ []) (sym (append-nil cur))
split_from_plain k cur (c ∷ s) h =
    let (other, later) = neither (code c == k) (has_char k s) h in
    rw (split_from, other)
      (split_from_plain k (push cur c) s later ∙ ap (λ t. t ∷ []) (push-append cur c s))

split_from_field :
    (k : ℕ) (cur s : String) (c : Char) (rest : String)
    → has_char k s ≡ false
    → code c == k ≡ true
    → split_from k cur (s <> (c ∷ rest)) ≡ (cur <> s) ∷ split_from k "" rest
unfolding split_from has_char
split_from_field k cur [] c rest h e =
    rw (nil-append (c ∷ rest), split_from, e, append-nil cur) refl
split_from_field k cur (d ∷ s) c rest h e =
    let (other, later) = neither (code d == k) (has_char k s) h in
    rw (cons-append d s (c ∷ rest), split_from, other)
      (split_from_field k (push cur d) s c rest later e
        ∙ ap (λ t. t ∷ split_from k "" rest) (push-append cur d s))

before_from_field :
    (k : ℕ) (cur s : String) (c : Char) (rest : String)
    → has_char k s ≡ false
    → code c == k ≡ true
    → before_from k cur (s <> (c ∷ rest)) ≡ cur <> s
unfolding before_from has_char
before_from_field k cur [] c rest h e =
    rw (nil-append (c ∷ rest), before_from, e, append-nil cur) refl
before_from_field k cur (d ∷ s) c rest h e =
    let (other, later) = neither (code d == k) (has_char k s) h in
    rw (cons-append d s (c ∷ rest), before_from, other)
      (before_from_field k (push cur d) s c rest later e ∙ push-append cur d s)

pub has_char_field :
    (k : ℕ) (s : String) (c : Char) (rest : String)
    → code c == k ≡ true
    → has_char k (s <> (c ∷ rest)) ≡ true
unfolding has_char
has_char_field k [] c rest e = rw (nil-append (c ∷ rest), e) refl
has_char_field k (d ∷ s) c rest e =
    rw (cons-append d s (c ∷ rest), has_char_field k s c rest e) (ground arith)

-- The fields of a text with a separator behind the first of them.
module _ (k : ℕ) (s : String) (c : Char) (rest : String) where
  pub split_field :
      has_char k s ≡ false → code c == k ≡ true → split k (s <> (c ∷ rest)) ≡ s ∷ split k rest
  unfolding split
  split_field h e = split_from_field k "" s c rest h e ∙ ap (λ t. t ∷ split k rest) (nil-append s)

  pub before_field : has_char k s ≡ false → code c == k ≡ true → before k (s <> (c ∷ rest)) ≡ s
  unfolding before
  before_field h e = before_from_field k "" s c rest h e ∙ nil-append s

pub split_plain : (k : ℕ) (s : String) → has_char k s ≡ false → split k s ≡ s ∷ []
unfolding split
split_plain k s h = split_from_plain k "" s h ∙ ap (λ t. t ∷ []) (nil-append s)
