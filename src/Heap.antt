-- ===== src/Heap.antt =====
-- The live `Content` objects of the program: ContentManager owns one of each type at most
-- (`mContentMap`). Entries point to them by address, and an address is never given out twice, so
-- a pointer whose object was deleted finds nothing here.
pub mod Live
use mediaupdater.Base.{ℕ, Bool, true, false, Option, none, some, if◌then◌else◌, ◌==◌, nat_eq}
use mediaupdater.Content.{ContentType, music, advert, revision, report, ContentInfo, Content}

-- A QMap from content types, in the order of the enumeration.
pub record Slots {ℓ} (A : Type ℓ) : Type ℓ where
  pub of_music : Option A
  pub of_advert : Option A
  pub of_revision : Option A
  pub of_report : Option A

abbrev pub ContentMap : Type 0
ContentMap = Slots Content

module _ {ℓ} {A : Type ℓ} where
  unfoldable pub no_slots : Slots A
  no_slots = record { of_music = none; of_advert = none; of_revision = none; of_report = none }

  unfoldable pub slot : ContentType → Slots A → Option A
  slot music m = m.of_music
  slot advert m = m.of_advert
  slot revision m = m.of_revision
  slot report m = m.of_report

  unfoldable pub set_slot : ContentType → A → Slots A → Slots A
  set_slot music a m = record m { of_music = some a }
  set_slot advert a m = record m { of_advert = some a }
  set_slot revision a m = record m { of_revision = some a }
  set_slot report a m = record m { of_report = some a }

  abbrev pub is_none : Option A → Bool
  is_none none = true
  is_none (some a) = false

-- The object at an address, if this slot holds it.
unfoldable pub at_address : ℕ → Option Content → Option Content
at_address a none = none
at_address a (some c) = if a == c.address then some c else none

abbrev pub or_else {ℓ} : {A : Type ℓ} → Option A → Option A → Option A
or_else (some a) b = some a
or_else none b = b

unfoldable pub find_content : ℕ → ContentMap → Option Content
unfolding at_address
find_content a m = or_else (at_address a m.of_music) (
    or_else (at_address a m.of_advert)
      (or_else (at_address a m.of_revision) (at_address a m.of_report)))

-- `info.content()`, dereferenced: `none` for a null or dangling pointer.
unfoldable pub deref : ContentMap → ContentInfo → Option Content
unfolding find_content
deref m info = elim info.content [ none ↦ none | some a ↦ find_content a m ]

-- An object of the map after a method changed it.
unfoldable pub put_back : Content → ContentMap → ContentMap
unfolding set_slot
put_back c m = set_slot c.content_type c m
