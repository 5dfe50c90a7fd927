-- ===== src/Run/Devices.antt =====
-- src/run/mod.rs and src/settings/mod.rs: the connected devices, reached through the broker. What the
-- broker is asked to publish is a list, and what each call comes to is a parameter.
pub mod Failed
use awtrix_controller.Prelude.{
  ◌∷◌, ◌++◌, Bool, Option, none, some, List, [], Result, ok, err, map_err,
}
use awtrix_controller.Prelude.Text.{Text, bytes}
use awtrix_controller.State
use awtrix_controller.State.{StateError, Failures}
use awtrix_controller.ClientState.{Registry}
use awtrix_controller.ClientState
use awtrix_controller.Settings.{Builder, build, topic}
use awtrix_controller.Settings
use awtrix_controller.Model.Settings as Payload
use awtrix_controller.Model.Enums.{OverlayEffect}
use awtrix_controller.Model.Payload.{Notification}
use awtrix_controller.DayNight.{Mode}

-- `Retention`.
pub data Retention : Type 0 where
  retained transient : Retention

-- A call of `BrokerHandle::publish`.
pub record Publish : Type 0 where
  pub topic : Text
  pub payload : Text
  pub retention : Retention

pub record Devices : Type 0 where
  pub registry : Registry
  pub builder : Builder
  pub failures : Failures

abbrev pub report : StateError → Devices → Devices
report e d = record d { failures = State.report d.failures e }

-- A notification that is not published: a failure was recorded, it cannot be serialized, or the broker
-- cannot publish it.
pub data NotifyError (JsonError PublishError : Type 0) : Type 0 where
  state : StateError → NotifyError JsonError PublishError
  serialize : Text → JsonError → NotifyError JsonError PublishError
  publish : Text → PublishError → NotifyError JsonError PublishError

pub data PushError (JsonError PublishError : Type 0) : Type 0 where
  serialize_settings : Text → JsonError → PushError JsonError PublishError
  publish_settings : Text → PublishError → PushError JsonError PublishError

unfoldable pub connected_ids : Devices → List Text × Devices
connected_ids d = elim (ClientState.connected_ids d.registry) [
  | ok ids ↦ (ids, d)
  | err e ↦ ([], report e d)
]

-- serde_json, the broker, and what the settings builder is told: the mode, and whether energy is saved.
module _ (JsonError PublishError : Type 0)
    (settings_json : Payload.Settings → Result JsonError Text)
    (notification_json : Notification → Result JsonError Text)
    (broker_publish : Publish → Result PublishError (Unit {0})) where
  -- A call of the broker, and what it comes to.
  abbrev pub publish_to_broker :
      {E : Type 0} → (PublishError → E) → Publish → Result E (Unit {0}) × List Publish
  publish_to_broker failed p = (map_err failed (broker_publish p), p ∷ [])

  -- `settings::push`.
  unfoldable pub push :
      Text → Payload.Settings → Result (PushError JsonError PublishError) (Unit {0}) × List Publish
  push client_id settings = elim (settings_json settings) [
    | err e ↦ (err (serialize_settings client_id e), [])
    | ok payload ↦
        publish_to_broker (publish_settings (topic client_id))
          (record { topic = topic client_id; payload = payload; retention = retained })
  ]

  -- An error of the push is only logged.
  unfoldable pub push_settings : Devices → Mode → Bool → Text → Devices × List Publish
  push_settings d mode saving client_id = elim (State.error d.failures) [
    | some e ↦ (d, [])
    | none ↦ elim (build d.builder mode saving) [
      | err e ↦ (report e d, [])
      | ok settings ↦ (d, (push client_id settings).1)
    ]
  ]

  unfoldable pub push_each : Devices → Mode → Bool → List Text → Devices × List Publish
  push_each d mode saving [] = (d, [])
  push_each d mode saving (client_id ∷ ids) =
      let (d', sent) = push_settings d mode saving client_id in
      let (d'', rest) = push_each d' mode saving ids in (d'', sent ++ rest)

  unfoldable pub push_settings_to_all : Devices → Mode → Bool → Devices × List Publish
  push_settings_to_all d mode saving =
      let (ids, d') = connected_ids d in push_each d' mode saving ids

  unfoldable pub publish_notification :
      Devices
      → Text
      → Notification
      → Result (NotifyError JsonError PublishError) (Unit {0}) × List Publish
  publish_notification d client_id notification = elim (State.error d.failures) [
    | some e ↦ (err (state e), [])
    | none ↦ elim (notification_json notification) [
      | err e ↦ (err (serialize client_id e), [])
      | ok payload ↦ publish_to_broker (publish (client_id ++ bytes "/notify")) (record {
        topic = client_id ++ bytes "/notify";
        payload = payload;
        retention = transient;
      })
    ]
  ]

  abbrev pub after_overlay :
      Devices → Mode → Bool → Result StateError (Unit {0}) → Devices × List Publish
  after_overlay d mode saving (err e) = (report e d, [])
  after_overlay d mode saving (ok _) = push_settings_to_all d mode saving

  -- `Publisher::set_overlay`.
  unfoldable pub set_overlay : Devices → Mode → Bool → Option OverlayEffect → Devices × List Publish
  set_overlay d mode saving overlay =
      let (result, builder) = Settings.set_overlay d.builder overlay in
      after_overlay (record d { builder = builder }) mode saving result
