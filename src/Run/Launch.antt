-- ===== src/Run/Launch.antt =====
-- src/run/mod.rs: how the components are started, and how a run exits. Starting the broker is a
-- parameter; the tasks of the scheduler are those of its own module.
pub mod Codes
use awtrix_controller.Prelude.{
  ℕ, ◌+◌, ◌∷◌, ◌++◌, leb, Bool, true, false, Option, none, some, List, [], if◌then◌else◌, Result,
  ok, err, ◌>>=◌,
}
use awtrix_controller.Prelude.Int.{ℤ, pos, negsuc, eqb_ℤ}
use awtrix_controller.Prelude.Decimal.{show_ℤ}
use awtrix_controller.Prelude.Text.{Text, bytes}
use awtrix_controller.Instants.{Instants, Floats}
use awtrix_controller.State
use awtrix_controller.ClientState
use awtrix_controller.ClientState.{Registry}
use awtrix_controller.Config.Timezone.{Zones}
use awtrix_controller.Config.TimeOfDay.{ParseError}
use awtrix_controller.Config.Sections.{Config}
use awtrix_controller.Model.Settings as Payload
use awtrix_controller.Model.Payload.{Notification}
use awtrix_controller.EnergySaving
use awtrix_controller.EnergySaving.{EnergySaving}
use awtrix_controller.Settings.{Builder, builder_new}
use awtrix_controller.Weather.Controller.{Self, with_fetch_function}
use awtrix_controller.Broker.Server.{SocketAddr, BrokerConfig, BrokerError, setup}
use awtrix_controller.Run.Devices.{Publish, Devices}
use awtrix_controller.Run.Loop.{Happening, Ended, main_loop}
use awtrix_controller.Run.Start.{Prepared, Exit, early, exit_component, shutdown_budget}

module _ (JoinError : Type 0) where
  abbrev out_of_range : ℤ → Result (BrokerError JoinError) SocketAddr
  out_of_range port =
      err
        (setup (bytes "listen address") (bytes "port " ++ show_ℤ port ++ bytes " is out of range"))

  -- `u16::try_from`, on the address that the host has, IPv6 or IPv4.
  unfoldable pub address : Bool → ℤ → Result (BrokerError JoinError) SocketAddr
  address is_v6 (pos n) =
      if leb n 65535 then ok (record { is_v6 = is_v6; port = n }) else out_of_range (pos n)
  address is_v6 (negsuc n) = out_of_range (negsuc n)

  -- `Option::transpose`.
  abbrev pub optional_address : Bool → Option ℤ → Result (BrokerError JoinError) (Option SocketAddr)
  optional_address is_v6 none = ok none
  optional_address is_v6 (some port) = do addr ← address is_v6 port; ok (some addr)

  -- What `start_broker` gives `Broker::start`.
  unfoldable pub broker_config :
      {F : Type 0} → Bool → Config F → Result (BrokerError JoinError) BrokerConfig
  broker_config is_v6 config = do
    tcp_addr ← address is_v6 config.mqtt.port
    ws_addr ← optional_address is_v6 config.mqtt.ws_port
    ok (record {
      tcp_addr = tcp_addr;
      ws_addr = ws_addr;
      username = config.mqtt.username;
      password = config.mqtt.password;
    })

-- The forecast that is simulated, by its code: `None` for 0 or no flag.
unfoldable pub simulation : Option ℤ → Option ℤ
simulation none = none
simulation (some code) = if eqb_ℤ code (pos 0) then none else some code

-- An exit after the main loop, the shutdown having started at an instant.
unfoldable pub shut_down : ℕ → Ended → Exit
shut_down now r = record {
  code = if r.failed then exit_component else 0;
  deadline = some (now + shutdown_budget);
}

abbrev pub exit_of : ℕ → Option Ended → Option Exit
exit_of now none = none
exit_of now (some r) = some (shut_down now r)

-- serde_json, and the start of the broker; `is_v6` tells whether the host has IPv6.
module _ (JsonError PublishError JoinError : Type 0)
    (settings_json : Payload.Settings → Result JsonError Text)
    (notification_json : Notification → Result JsonError Text)
    (broker_publish : Publish → Result PublishError (Unit {0})) (time : Instants) (fl : Floats)
    (zones : Zones) (is_v6 : Bool)
    (broker_start : BrokerConfig → Result (BrokerError JoinError) (Unit {0})) where
  -- What the main loop works with.
  pub record Components : Type 0 where
    pub devices : Devices
    pub energy_saving : EnergySaving
    pub weather : Option (Self time fl zones)

  abbrev pub with_broker :
      Registry
      → Prepared fl.F zones.Zone
      → EnergySaving
      → Result (BrokerError JoinError) (Unit {0})
      → Result Exit Components
  with_broker registry p energy_saving (err _) = err (early exit_component)
  with_broker registry p energy_saving (ok _) = ok (record {
    devices = record {
      registry = registry;
      builder = builder_new p.config.theme;
      failures = State.new false;
    };
    energy_saving = energy_saving;
    weather =
        if p.config.weather.enabled
        then some (
            with_fetch_function time fl zones p.config.weather p.config.location.latitude
              p.config.location.longitude p.config.timezone)
        else none;
  })

  abbrev pub with_modes :
      Registry → Prepared fl.F zones.Zone → Result ParseError EnergySaving → Result Exit Components
  with_modes registry p (err _) = err (early exit_component)
  with_modes registry p (ok energy_saving) =
      with_broker registry p energy_saving (broker_config JoinError is_v6 p.config >>= broker_start)

  -- `start` up to the loop, with the registry of the options.
  unfoldable pub start_components : Registry → Prepared fl.F zones.Zone → Result Exit Components
  start_components registry p = with_modes registry p (EnergySaving.new p.config.energy_saving)

  -- `start`, given what reaches the main loop and the instant at which it ends.
  unfoldable pub start :
      Registry → Prepared fl.F zones.Zone → List (Happening (Self time fl zones)) → ℕ → Option Exit
  start registry p happenings now = elim (start_components registry p) [
    | err exit ↦ some exit
    | ok c ↦ exit_of now (
        main_loop JsonError PublishError settings_json notification_json broker_publish time fl
          zones p.test_notification c.devices [] happenings)
  ]
