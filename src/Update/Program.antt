-- ===== src/Update/Program.antt =====
-- updater/lmmediaupdaterservice.h and .cpp: the service as the operating system starts and stops it.
pub mod Laws
use mediaupdater.Base.{ℕ, ◌≡◌, Bool, true, false, ◌&&◌, Option, none, some}
use mediaupdater.Base.Int.{ℤ}
use mediaupdater.Qt.{Qt}
use mediaupdater.Station.{Station}
use mediaupdater.Account.{Account, Codec}
use mediaupdater.Update.Service.{Occurrence, Service, may_happen, can_happen, take, new_service}

module _ (Q : Qt) (st : Station) (C : Codec) where
  -- `LmMediaUpdaterService`, with the machine as it is while there is no controller.
  pub record Program : Type 0 where
    pub update_controller : Option (Service Q st C)
    pub world : Q.World

  unfoldable pub world_of : Program → Q.World
  world_of p = elim p.update_controller [ none ↦ p.world | some s ↦ s.controller.downloads.world ]

  -- A new controller takes the place of the one that is there, if any.
  unfoldable pub start : Account → ℤ → ℤ → ℕ → Program → Program
  unfolding world_of
  start no_account unset_port unset_id unset_number p = record p {
    update_controller =
        some (new_service Q st C no_account unset_port unset_id unset_number (world_of p));
    world = world_of p;
  }

  unfoldable pub stop : Program → Program
  unfolding world_of
  stop p = record p { update_controller = none; world = world_of p }

  -- What the operating system does, or something that comes to the controller that there is.
  pub data Call : Type 0 where
    starts : Account → ℤ → ℤ → ℕ → Call
    stops : Call
    happens : Occurrence → Call

  unfoldable pub call : Call → Program → Option Program
  unfolding start stop
  call (starts no_account unset_port unset_id unset_number) p =
      some (start no_account unset_port unset_id unset_number p)
  call stops p = some (stop p)
  call (happens o) p = elim p.update_controller [
    | none ↦ none
    | some s ↦ elim (take Q st C o s) [
      | none ↦ none
      | some s' ↦ some (record p { update_controller = some s' })
    ]
  ]

  abbrev pub MayHappen : Call → Program → Type 0
  MayHappen (happens o) p =
      (s : Service Q st C) × (p.update_controller ≡ some s) × (may_happen Q st C o s ≡ true)
  MayHappen _ p = Unit

  -- What is called, or comes where the server answers each question once.
  abbrev pub is_due : Call → Program → Bool
  is_due (happens o) p = elim p.update_controller [ none ↦ false | some s ↦ can_happen Q st C o s ]
  is_due _ p = true

  -- The states that the program comes to, on a machine that was switched on.
  pub data Sessions : Program → Type 0 where
    booted : (w : Q.World) → Sessions (record { update_controller = none; world = w })
    then_called :
        {p p' : Program} (c : Call) → Sessions p → MayHappen c p → call c p ≡ some p' → Sessions p'

  -- Whether all of it came in order.
  abbrev pub in_order : {p : Program} → Sessions p → Bool
  in_order (booted w) = true
  in_order (then_called {p} {p'} c g h r) = in_order g && is_due c p
