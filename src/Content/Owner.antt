-- ===== src/Content/Owner.antt =====
-- The entries that a content lists point to that content: what `appendInfo` keeps up.
use mediaupdater.Base.{
  ◌≡◌, String, Bool, true, false, none, some, List, [], ◌∷◌, arith, ◌==◌, nat_eq, eq_self, ℕ,
}
use mediaupdater.Base.Lists.{all, all-append}
use mediaupdater.Content.{
  ContentType, ContentInfo, Content, info_at, append_info, append_infos, destination_slash,
}

abbrev pub points_to : ℕ → ContentInfo → Bool
points_to a info = elim info.content [ none ↦ false | some b ↦ b == a ]

-- A content at address `a`, of type `t`, whose entries point to it.
pub record IsAt (a : ℕ) (t : ContentType) (c : Content) : Type 0 where
  pub address_is : c.address ≡ a
  pub type_is : c.content_type ≡ t
  pub entries_are : all (points_to a) c.source_list ≡ true

module _ (a : ℕ) (t : ContentType) where
  pub append_info-IsAt :
      (dir file : String) (std : Bool) (c : Content)
      → IsAt a t c
      → IsAt a t (append_info dir file std c)
  unfolding append_info info_at
  append_info-IsAt dir file true c h = record {
    address_is = h.address_is;
    type_is = h.type_is;
    entries_are = h.entries_are;
  }
  append_info-IsAt dir file false c h = record {
    address_is = h.address_is;
    type_is = h.type_is;
    entries_are = ground (
      arith,
      h.address_is,
      h.entries_are,
      all-append (points_to a) c.source_list (info_at c.address dir file ∷ []),
      eq_self a,
    );
  }

  pub append_infos-IsAt :
      (dir : String) (files : List String) (std : Bool) (c : Content)
      → IsAt a t c
      → IsAt a t (append_infos dir files std c)
  unfolding append_infos
  append_infos-IsAt dir [] std c h = h
  append_infos-IsAt dir (file ∷ files) std c h =
      append_infos-IsAt dir files std (append_info dir file std c)
        (append_info-IsAt dir file std c h)

  pub destination_slash-IsAt : (c : Content) → IsAt a t c → IsAt a t (destination_slash c).0
  unfolding destination_slash
  destination_slash-IsAt c h = record {
    address_is = h.address_is;
    type_is = h.type_is;
    entries_are = h.entries_are;
  }
