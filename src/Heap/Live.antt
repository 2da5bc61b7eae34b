-- ===== src/Heap/Live.antt =====
-- The map of the live contents: which pointers can be followed after a content was changed.
use mediaupdater.Base.{
  ◌⊎◌, ◌∙◌, subst, ◌≡◌, refl, sym, ℕ, Bool, true, not, ◌&&◌, Option, none, some, arith,
  Option-cases, inl, inr, nat_eq,
}
use mediaupdater.Content.{ContentType, music, advert, revision, report, ContentInfo, Content}
use mediaupdater.Content.Owner.{points_to}
use mediaupdater.Heap.{
  ContentMap, at_address, find_content, deref, put_back, slot, set_slot, or_else, is_none,
}

abbrev pub HasType : ContentType → Option Content → Type 0
HasType t none = Unit {0}
HasType t (some c) = c.content_type ≡ t

-- Each content stands under its own type.
abbrev pub IsTyped : ContentMap → Type 0
IsTyped m =
    HasType music m.of_music
    × HasType advert m.of_advert
    × HasType revision m.of_revision
    × HasType report m.of_report

-- The pointer of an entry can be followed.
abbrev pub is_live : ContentMap → ContentInfo → Bool
is_live m info = not (is_none (deref m info))

-- Where a content was found.
data Found (a : ℕ) (c : Content) (m : ContentMap) : Type 0 where
  in_music : m.of_music ≡ some c → c.address ≡ a → Found a c m
  in_advert : m.of_advert ≡ some c → c.address ≡ a → Found a c m
  in_revision : m.of_revision ≡ some c → c.address ≡ a → Found a c m
  in_report : m.of_report ≡ some c → c.address ≡ a → Found a c m

at_address-some :
    (a : ℕ) (o : Option Content) (c : Content)
    → at_address a o ≡ some c
    → (o ≡ some c) × (c.address ≡ a)
unfolding at_address
at_address-some a none c h = ground arith
at_address-some a (some d) c h = (ground arith, ground arith)

or_else-some :
    {A : Type 0} (x y : Option A) (c : A) → or_else x y ≡ some c → (x ≡ some c) ⊎ (y ≡ some c)
or_else-some none y c h = inr h
or_else-some (some d) y c h = inl h

found : (a : ℕ) (c : Content) (m : ContentMap) → find_content a m ≡ some c → Found a c m
unfolding find_content
found a c m h = elim (or_else-some (at_address a m.of_music) _ c h) [
  | inl e ↦ (let p = at_address-some a m.of_music c e in in_music p.0 p.1)
  | inr g ↦ elim (or_else-some (at_address a m.of_advert) _ c g) [
    | inl e ↦ (let p = at_address-some a m.of_advert c e in in_advert p.0 p.1)
    | inr k ↦ elim (or_else-some (at_address a m.of_revision) _ c k) [
      | inl e ↦ (let p = at_address-some a m.of_revision c e in in_revision p.0 p.1)
      | inr e ↦ (let p = at_address-some a m.of_report c e in in_report p.0 p.1)
    ]
  ]
]

abbrev misses : ℕ → Option Content → Bool
misses b o = is_none (at_address b o)

is_none-or_else : {A : Type 0} (x y : Option A) → is_none (or_else x y) ≡ (is_none x && is_none y)
is_none-or_else none y = refl
is_none-or_else (some d) y = refl

misses_same :
    (b : ℕ) (c c' : Content) → c'.address ≡ c.address → misses b (some c') ≡ misses b (some c)
unfolding at_address
misses_same b c c' h = ground arith

-- A pointer can be followed exactly if one of the slots holds its object.
is_none-find_content :
    (b : ℕ) (m : ContentMap)
    → is_none (find_content b m) ≡ (
        misses b m.of_music
        && (misses b m.of_advert && (misses b m.of_revision && misses b m.of_report)))
unfolding find_content
is_none-find_content b m = ground (
  arith,
  is_none-or_else (at_address b m.of_music) (
      or_else (at_address b m.of_advert)
        (or_else (at_address b m.of_revision) (at_address b m.of_report))),
  is_none-or_else (at_address b m.of_advert)
      (or_else (at_address b m.of_revision) (at_address b m.of_report)),
  is_none-or_else (at_address b m.of_revision) (at_address b m.of_report),
)

same_slot :
    (b : ℕ) (t : ContentType) (c c' : Content) (m : ContentMap)
    → slot t m ≡ some c
    → c'.address ≡ c.address
    → is_none (find_content b (set_slot t c' m)) ≡ is_none (find_content b m)
unfolding slot set_slot
same_slot b music c c' m h d =
    is_none-find_content b (set_slot music c' m)
    ∙ rw (h, misses_same b c c' d) refl
    ∙ sym (is_none-find_content b m)
same_slot b advert c c' m h d =
    is_none-find_content b (set_slot advert c' m)
    ∙ rw (h, misses_same b c c' d) refl
    ∙ sym (is_none-find_content b m)
same_slot b revision c c' m h d =
    is_none-find_content b (set_slot revision c' m)
    ∙ rw (h, misses_same b c c' d) refl
    ∙ sym (is_none-find_content b m)
same_slot b report c c' m h d =
    is_none-find_content b (set_slot report c' m)
    ∙ rw (h, misses_same b c c' d) refl
    ∙ sym (is_none-find_content b m)

-- A content found through a pointer stands in the slot of its own type.
found_slot :
    (c : Content) (m : ContentMap) (a : ℕ)
    → IsTyped m
    → find_content a m ≡ some c
    → slot c.content_type m ≡ some c
unfolding slot
found_slot c m a t e = elim (found a c m e) [
  | in_music h _ ↦ subst (λ u. slot u m ≡ some c) (sym (subst (HasType music) h t.0)) h
  | in_advert h _ ↦ subst (λ u. slot u m ≡ some c) (sym (subst (HasType advert) h t.1)) h
  | in_revision h _ ↦ subst (λ u. slot u m ≡ some c) (sym (subst (HasType revision) h t.2)) h
  | in_report h _ ↦ subst (λ u. slot u m ≡ some c) (sym (subst (HasType report) h t.3)) h
]

-- A content that changed, in its own place, leaves every pointer as good as it was.
pub is_live-put_back :
    (c c' : Content) (info : ContentInfo) (m : ContentMap) (a : ℕ)
    → IsTyped m
    → find_content a m ≡ some c
    → c'.address ≡ c.address
    → c'.content_type ≡ c.content_type
    → is_live (put_back c' m) info ≡ is_live m info
unfolding put_back deref
is_live-put_back c c' info m a t e d y = elim (Option-cases info.content) [
  | inl n ↦ rw n refl
  | inr (b, n) ↦
      (let same : is_none (find_content b (put_back c' m)) ≡ is_none (find_content b m) =
          subst (λ u. is_none (find_content b (set_slot u c' m)) ≡ is_none (find_content b m))
            (sym y) (same_slot b c.content_type c c' m (found_slot c m a t e) d) in
        rw (n, same) refl)
]

pub put_back-IsTyped : (c' : Content) (m : ContentMap) → IsTyped m → IsTyped (put_back c' m)
unfolding put_back set_slot
put_back-IsTyped c' m t = go c'.content_type refl
  where
    go : (u : ContentType) → c'.content_type ≡ u → IsTyped (set_slot u c' m)
    go music e = (e, t.1, t.2, t.3)
    go advert e = (t.0, e, t.2, t.3)
    go revision e = (t.0, t.1, e, t.3)
    go report e = (t.0, t.1, t.2, e)

-- The slots that a pointer misses once a content was put into an empty one.
misses-set_slot :
    (b : ℕ) (t : ContentType) (c : Content) (m : ContentMap)
    → slot t m ≡ none
    → is_none (find_content b (set_slot t c m)) ≡ (misses b (some c) && is_none (find_content b m))
unfolding slot set_slot at_address
misses-set_slot b music c m e =
    ground (arith, is_none-find_content b m, is_none-find_content b (set_slot music c m))
misses-set_slot b advert c m e =
    ground (arith, is_none-find_content b m, is_none-find_content b (set_slot advert c m))
misses-set_slot b revision c m e =
    ground (arith, is_none-find_content b m, is_none-find_content b (set_slot revision c m))
misses-set_slot b report c m e =
    ground (arith, is_none-find_content b m, is_none-find_content b (set_slot report c m))

-- A new content in an empty slot leaves the pointers that were good as good.
pub is_live-set_slot :
    (t : ContentType) (c : Content) (m : ContentMap) (info : ContentInfo)
    → slot t m ≡ none
    → is_live m info ≡ true
    → is_live (set_slot t c m) info ≡ true
unfolding deref
is_live-set_slot t c m info e h = elim (Option-cases info.content) [
  | inl n ↦ ground arith
  | inr (b, n) ↦ ground (arith, misses-set_slot b t c m e)
]

-- The entries that point to it are good.
pub is_live_new :
    (t : ContentType) (c : Content) (m : ContentMap) (info : ContentInfo)
    → slot t m ≡ none
    → points_to c.address info ≡ true
    → is_live (set_slot t c m) info ≡ true
unfolding deref at_address
is_live_new t c m info e h = elim (Option-cases info.content) [
  | inl n ↦ ground arith
  | inr (b, n) ↦ ground (arith, misses-set_slot b t c m e)
]

pub set_slot-IsTyped :
    (t : ContentType) (c : Content) (m : ContentMap)
    → c.content_type ≡ t
    → IsTyped m
    → IsTyped (set_slot t c m)
unfolding set_slot
set_slot-IsTyped music c m e t = (e, t.1, t.2, t.3)
set_slot-IsTyped advert c m e t = (t.0, e, t.2, t.3)
set_slot-IsTyped revision c m e t = (t.0, t.1, e, t.3)
set_slot-IsTyped report c m e t = (t.0, t.1, t.2, e)
