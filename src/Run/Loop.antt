-- ===== src/Run/Loop.antt =====
-- src/run/mod.rs: the events that the callbacks queue, their handler, and the main loop. A handler that
-- is spawned is run to its end before the next event; what the broker is asked to publish is a list.
pub mod Exits
pub mod Quiet
use awtrix_controller.Prelude.{
  ◌∷◌, ◌++◌, Bool, true, false, Option, none, some, List, [], Result, ok, err,
}
use awtrix_controller.Prelude.Text.{Text}
use awtrix_controller.Instants.{Timestamp, Instants, Floats}
use awtrix_controller.Config.Timezone.{Zones}
use awtrix_controller.ClientState.{Registry}
use awtrix_controller.Settings.{Builder}
use awtrix_controller.State
use awtrix_controller.State.{StateError}
use awtrix_controller.Model.Settings as Payload
use awtrix_controller.Model.Payload.{Notification}
use awtrix_controller.DayNight.{Mode}
use awtrix_controller.Weather.Controller
use awtrix_controller.Weather.Controller.{Self, Request, Outcome, on_device_connected}
use awtrix_controller.Run.Devices.{
  Devices, Publish, report, push_settings, push_settings_to_all, publish_notification,
}

pub data Event : Type 0 where
  connected ready : Text → Event
  push_all : Event

-- What the other tasks have made of the shared state when an event is handled: the broker registers
-- devices, the weather controller polls and sets the overlay, the controllers switch their modes.
pub record Moment (Weather : Type 0) : Type 0 where
  pub registry : Registry
  pub builder : Builder
  pub weather : Option Weather
  pub mode : Mode
  pub saving : Bool
  pub now : Timestamp

-- What reaches the main loop: the stop, an event of the queue with the moment at which it is handled, and
-- an error that a callback of the broker or a scheduled action reports.
pub data Happening (Weather : Type 0) : Type 0 where
  stop_requested : Happening Weather
  queued : Event → Moment Weather → Happening Weather
  reported : StateError → Happening Weather

abbrev pub seen : {Weather : Type 0} → Devices → Moment Weather → Devices
seen d m = record { registry = m.registry; builder = m.builder; failures = d.failures }

-- How a run ended: whether a failure ended it, and what the devices were sent until then.
pub record Ended : Type 0 where
  pub failed : Bool
  pub devices : Devices
  pub sent : List Publish

abbrev pub ended : Bool → Devices → List Publish → Option Ended
ended failed d sent = some (record { failed = failed; devices = d; sent = sent })

module _ (JsonError PublishError : Type 0)
    (settings_json : Payload.Settings → Result JsonError Text)
    (notification_json : Notification → Result JsonError Text)
    (broker_publish : Publish → Result PublishError (Unit {0})) (time : Instants) (fl : Floats)
    (zones : Zones) where
  -- A request of the weather controller's replay, which only publishes; one that fails is logged.
  abbrev pub serve : Devices → Request → List Publish
  serve d (Controller.publish client_id notification) =
      (publish_notification JsonError PublishError settings_json notification_json broker_publish d
        client_id notification).1
  serve d (Controller.set_overlay overlay) = []

  unfoldable pub serve_all : Devices → List Request → List Publish
  serve_all d [] = []
  serve_all d (request ∷ requests) = serve d request ++ serve_all d requests

  abbrev pub test_sent : Devices → Text → Option Notification → List Publish
  test_sent d client_id none = []
  test_sent d client_id (some notification) = serve d (Controller.publish client_id notification)

  -- The replay to a device that is ready: an error of it is reported, and ends the handler.
  abbrev pub after_replay :
      Devices → Text → Option Notification → Outcome time fl zones → Devices × List Publish
  after_replay d client_id test o = elim o.result [
    | err e ↦ (report e d, [])
    | ok _ ↦ (d, serve_all d o.requests ++ test_sent d client_id test)
  ]

  unfoldable pub handle_ready :
      Devices
      → Option (Self time fl zones)
      → Option Notification
      → Text
      → Timestamp
      → Devices × List Publish
  handle_ready d none test client_id now = (d, test_sent d client_id test)
  handle_ready d (some weather) test client_id now =
      after_replay d client_id test (on_device_connected time fl zones weather client_id now)

  unfoldable pub handle :
      Devices
      → Option (Self time fl zones)
      → Option Notification
      → Event
      → Mode
      → Bool
      → Timestamp
      → Devices × List Publish
  handle d weather test (connected client_id) mode saving now =
      push_settings JsonError PublishError settings_json notification_json broker_publish d mode
        saving client_id
  handle d weather test (ready client_id) mode saving now =
      handle_ready d weather test client_id now
  handle d weather test push_all mode saving now =
      push_settings_to_all JsonError PublishError settings_json notification_json broker_publish d
        mode saving

  -- The `select!` is biased: a failure is seen first, then the stop, then the queue. `none` is a loop that
  -- still waits.
  unfoldable pub main_loop :
      Option Notification
      → Devices
      → List Publish
      → List (Happening (Self time fl zones))
      → Option Ended
  main_loop test d sent [] = elim (State.failed d.failures) [
    | some e ↦ ended true d sent
    | none ↦ none
  ]
  main_loop test d sent (stop_requested ∷ later) = elim (State.failed d.failures) [
    | some e ↦ ended true d sent
    | none ↦ ended false d sent
  ]
  main_loop test d sent (reported error ∷ later) = elim (State.failed d.failures) [
    | some e ↦ ended true d sent
    | none ↦ main_loop test (report error d) sent later
  ]
  main_loop test d sent (queued event m ∷ later) = elim (State.failed d.failures) [
    | some e ↦ ended true d sent
    | none ↦
        let (d', more) = handle (seen d m) m.weather test event m.mode m.saving m.now in
        main_loop test d' (sent ++ more) later
  ]
