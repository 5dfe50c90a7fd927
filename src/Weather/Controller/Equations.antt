-- ===== src/Weather/Controller/Equations.antt =====
-- src/weather/controller/mod.rs: what the steps of a poll come to, by whether their locks are
-- poisoned.
use awtrix_controller.Prelude.{◌≡◌, refl, not, Option, none, List, [], ◌∷◌, ok, err, if◌then◌else◌}
use awtrix_controller.Instants.{Instants, Floats}
use awtrix_controller.State.{StateError, put}
use awtrix_controller.Config.Timezone.{Zones}
use awtrix_controller.Model.Enums.{OverlayEffect, same_overlay}
use awtrix_controller.Weather.State.{StateManager, on_fetch_failure}
use awtrix_controller.Weather.Controller.{
  Memory, Request, set_overlay, Self, Outcome, lock_memory, lock_states, apply_overlay,
  fetch_failed,
}

-- The request for a new overlay, when it is another one.
abbrev pub change : Option OverlayEffect → Option OverlayEffect → List Request
change before o = if not (same_overlay before o) then set_overlay o ∷ [] else []

module _ (time : Instants) (fl : Floats) (z : Zones) (c : Self time fl z) where
  abbrev pub stopped : StateError → Outcome time fl z
  stopped e = record { result = err e; after = c; requests = [] }

  pub apply_overlay_err :
      (o : Option OverlayEffect) (e : StateError)
      → lock_memory time fl z c ≡ err e
      → apply_overlay time fl z c o ≡ stopped e
  unfolding apply_overlay
  apply_overlay_err o e h = rw (h, apply_overlay) refl

  pub apply_overlay_ok :
      (o : Option OverlayEffect) (m : Memory)
      → lock_memory time fl z c ≡ ok m
      → apply_overlay time fl z c o ≡ record {
        result = ok tt;
        after = record c { memory = put (record m { overlay = o }) c.memory };
        requests = change m.overlay o;
      }
  unfolding apply_overlay
  apply_overlay_ok o m h = rw (h, apply_overlay) refl

  pub fetch_failed_err :
      (e : StateError) → lock_states time fl z c ≡ err e → fetch_failed time fl z c ≡ stopped e
  unfolding fetch_failed
  fetch_failed_err e h = rw (h, fetch_failed) refl

  pub fetch_failed_ok :
      (s : StateManager)
      → lock_states time fl z c ≡ ok s
      → fetch_failed time fl z c
        ≡ apply_overlay time fl z (record c { states = put s c.states }) none
  unfolding fetch_failed on_fetch_failure
  fetch_failed_ok s h = rw (h, fetch_failed) refl
