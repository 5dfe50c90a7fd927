-- ===== src/ClientState.antt =====
-- src/clientstate/mod.rs: the registry of connected devices, a map behind a read-write lock.
-- A method returns the registry after the call; what it logs is left out.
pub mod Laws
pub mod Ids
use awtrix_controller.Prelude.{
  ℕ, ◌&&◌, ◌||◌, Bool, true, false, Option, none, some, List, [], ◌∷◌, Result, ok, err, ltb,
  if◌then◌else◌, ◌==◌,
}
use awtrix_controller.Prelude.Text.{Text, bytes}
use awtrix_controller.Prelude.Dict.{Dict, lookup, insert, erase, keys}
use awtrix_controller.Model.Stats.{Stats}
use awtrix_controller.State.{StateError, Lock, acquire, put, checked}

pub record ClientState : Type 0 where
  pub stats : Option Stats
  pub current_app : Text

abbrev pub default : ClientState
default = record { stats = none; current_app = [] }

pub record Registry : Type 0 where
  pub clients : Lock (Dict ClientState)

unfoldable pub new : Registry
new = record { clients = record { value = []; is_poisoned = false } }

-- `read` and `write` take the same lock and name the same component.
unfoldable pub guard : Registry → Result StateError (Dict ClientState)
unfolding checked
guard r = checked (acquire r.clients) (bytes "client registry")

abbrev set_clients : Registry → Dict ClientState → Registry
set_clients r m = record { clients = put m r.clients }

-- A method that writes, given what it makes of the map.
abbrev with_clients :
    Registry → (Dict ClientState → Dict ClientState) → Result StateError (Unit {0}) × Registry
with_clients r f = elim (guard r) [ ok m ↦ (ok tt, set_clients r (f m)) | err e ↦ (err e, r) ]

unfoldable pub register : Registry → Text → Result StateError (Unit {0}) × Registry
unfolding guard
register r client_id = with_clients r (insert client_id default)

unfoldable pub unregister : Registry → Text → Result StateError (Unit {0}) × Registry
unfolding guard
unregister r client_id = with_clients r (erase client_id)

-- `get_mut` and a write to the entry, nothing when there is none.
unfoldable pub modify : Text → (ClientState → ClientState) → Dict ClientState → Dict ClientState
modify k f m = elim (lookup k m) [ some s ↦ insert k (f s) m | none ↦ m ]

unfoldable pub update_stats : Registry → Text → Stats → Result StateError (Unit {0}) × Registry
unfolding guard modify
update_stats r client_id stats =
    with_clients r (modify client_id (λ s. record s { stats = some stats }))

unfoldable pub update_current_app : Registry → Text → Text → Result StateError (Unit {0}) × Registry
unfolding guard modify
update_current_app r client_id app =
    with_clients r (modify client_id (λ s. record s { current_app = app }))

-- The order of Rust strings: by bytes, a prefix first.
unfoldable pub text_le : Text → Text → Bool
text_le [] t = true
text_le (x ∷ s) [] = false
text_le (x ∷ s) (y ∷ t) = ltb x y || ((x == y) && text_le s t)

-- `Vec::sort`, which is stable; on distinct texts every sorting algorithm has one result.
unfoldable pub insert_sorted : Text → List Text → List Text
unfolding text_le
insert_sorted k [] = k ∷ []
insert_sorted k (j ∷ ks) = if text_le k j then k ∷ j ∷ ks else j ∷ insert_sorted k ks

unfoldable pub sort : List Text → List Text
unfolding insert_sorted
sort [] = []
sort (k ∷ ks) = insert_sorted k (sort ks)

unfoldable pub connected_ids : Registry → Result StateError (List Text)
unfolding guard
connected_ids r = elim (guard r) [ ok m ↦ ok (sort (keys m)) | err e ↦ err e ]

unfoldable pub snapshot : Registry → Text → Result StateError (Option ClientState)
unfolding guard
snapshot r client_id = elim (guard r) [ ok m ↦ ok (lookup client_id m) | err e ↦ err e ]
