-- ===== src/Broker/Hook/Run.antt =====
-- src/broker/hook.rs: sequences of what can happen to the hook: rmqtt's calls, one at a time, a
-- writer that panics under either lock, and the broker that starts to close.
use awtrix_controller.Prelude.{true, Option, none, List, [], ◌∷◌}
use awtrix_controller.Prelude.Text.{Text}
use awtrix_controller.Model.Stats.{Stats}
use awtrix_controller.Broker.Hook.{ControllerHook, Parameter, hook}

pub data Happening : Type 0 where
  event : Parameter → Happening
  poison_connections poison_registry close : Happening

module _ (from_json : Text → Option Stats) (from_utf8_lossy : Text → Text) where
  unfoldable pub advance : Happening → ControllerHook → ControllerHook
  advance (event p) h = (hook from_json from_utf8_lossy p none h).2
  advance poison_connections h = record h {
    connections = record { value = h.connections.value; is_poisoned = true };
  }
  advance poison_registry h = record h {
    registry = record { clients = record { value = h.registry.clients.value; is_poisoned = true } };
  }
  advance close h = record h { closing = true }

  unfoldable pub run : List Happening → ControllerHook → ControllerHook
  run [] h = h
  run (e ∷ es) h = run es (advance e h)
