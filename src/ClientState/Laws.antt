-- ===== src/ClientState/Laws.antt =====
-- src/clientstate/mod.rs: what the methods of the registry do, seen through `snapshot`.
use awtrix_controller.Prelude.{
  ◌≡◌, refl, true, false, Option, none, some, ok, err, arith, if◌then◌else◌, inl, inr, Option-cases,
}
use awtrix_controller.Prelude.Text.{Text, bytes, same, same_iff}
use awtrix_controller.Prelude.Dict.{Dict, lookup, lookup-insert, lookup-erase}
use awtrix_controller.Model.Stats.{Stats}
use awtrix_controller.State.{poisoned}
use awtrix_controller.ClientState.{
  ClientState, Registry, default, register, unregister, update_stats, update_current_app, snapshot,
  connected_ids, modify,
}

-- `Option::map`, by clauses so that it computes with the tests.
abbrev pub on_some : (ClientState → ClientState) → Option ClientState → Option ClientState
on_some f none = none
on_some f (some s) = some (f s)

pub lookup-modify :
    (k j : Text) (f : ClientState → ClientState) (m : Dict ClientState)
    → lookup j (modify k f m) ≡ (if same k j then on_some f (lookup j m) else lookup j m)
unfolding modify
lookup-modify k j f m = elim (Option-cases (lookup k m)) [
  | inl e ↦ rw (e, modify) (ground (arith, same_iff k j))
  | inr (s, e) ↦ rw (e, modify) (ground (arith, same_iff k j, lookup-insert k j (f s) m))
]

-- What the registry holds of each client.
abbrev pub view : Registry → Text → Option ClientState
view r j = lookup j r.clients.value

-- While the lock is sound, `snapshot` gives the client's entry and each method that writes succeeds,
-- leaves the lock sound, changes the entry of its client alone, and changes that as named: `register` starts it
-- afresh, `unregister` drops it, the updates write their field, and only where an entry is.
pub methods-update :
    (r : Registry) (client_id j : Text) (stats : Stats) (app : Text)
    → r.clients.is_poisoned ≡ false
    → let hit = same client_id j in
      (snapshot r j ≡ ok (view r j))
      × (let (res, r') = register r client_id in
          (res ≡ ok tt)
          × (r'.clients.is_poisoned ≡ false)
          × (view r' j ≡ (if hit then some default else view r j)))
      × (let (res, r') = unregister r client_id in
          (res ≡ ok tt)
          × (r'.clients.is_poisoned ≡ false)
          × (view r' j ≡ (if hit then none else view r j)))
      × (let (res, r') = update_stats r client_id stats in
          (res ≡ ok tt)
          × (r'.clients.is_poisoned ≡ false)
          × (view r' j ≡ (
              if hit then on_some (λ s. record s { stats = some stats }) (view r j) else view r j)))
      × (let (res, r') = update_current_app r client_id app in
          (res ≡ ok tt)
          × (r'.clients.is_poisoned ≡ false)
          × (view r' j ≡ (
              if hit then on_some (λ s. record s { current_app = app }) (view r j) else view r j)))
unfolding register unregister update_stats update_current_app snapshot
methods-update r c j stats app free = (
  rw free,
  rw free (refl, refl, lookup-insert c j default r.clients.value),
  rw free (refl, refl, lookup-erase c j r.clients.value),
  rw free (refl, refl, lookup-modify c j (λ s. record s { stats = some stats }) r.clients.value),
  rw free (refl, refl, lookup-modify c j (λ s. record s { current_app = app }) r.clients.value),
)

-- Once the lock is poisoned every method reports it under the registry's name, and none changes
-- anything.
pub methods-poisoned :
    (r : Registry) (client_id : Text) (stats : Stats) (app : Text)
    → r.clients.is_poisoned ≡ true
    → let e = poisoned (bytes "client registry") in
      (register r client_id ≡ (err e, r))
      × (unregister r client_id ≡ (err e, r))
      × (update_stats r client_id stats ≡ (err e, r))
      × (update_current_app r client_id app ≡ (err e, r))
      × (connected_ids r ≡ err e)
      × (snapshot r client_id ≡ err e)
unfolding register unregister update_stats update_current_app snapshot connected_ids
methods-poisoned r c stats app bad = (rw bad, rw bad, rw bad, rw bad, rw bad, rw bad)
