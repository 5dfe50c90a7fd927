-- ===== src/Run/Devices/Failed.antt =====
-- src/run/mod.rs: the devices after a failure is recorded.
use awtrix_controller.Prelude.{◌≡◌, refl, ◌∷◌, Bool, some, List, [], arith, Result, ok, err}
use awtrix_controller.Prelude.Text.{Text}
use awtrix_controller.State
use awtrix_controller.State.{StateError}
use awtrix_controller.ClientState
use awtrix_controller.Model.Settings as Payload
use awtrix_controller.Model.Payload.{Notification}
use awtrix_controller.DayNight.{Mode}
use awtrix_controller.Run.Devices.{
  Publish, Devices, state, report, connected_ids, push_settings, push_each, push_settings_to_all,
  publish_notification,
}

-- The error stays the first one.
pub report-first :
    (d : Devices) (e e' : StateError)
    → d.failures.first ≡ some e
    → (report e' d).failures.first ≡ some e
unfolding State.report
report-first d e e' h = rw h refl

module _ (JsonError PublishError : Type 0)
    (settings_json : Payload.Settings → Result JsonError Text)
    (notification_json : Notification → Result JsonError Text)
    (broker_publish : Publish → Result PublishError (Unit {0})) (d : Devices) (e : StateError)
    (failed : d.failures.first ≡ some e) (mode : Mode) (saving : Bool) where
  pub push_settings-failed :
      (client_id : Text)
      → push_settings JsonError PublishError settings_json notification_json broker_publish d mode
          saving client_id
        ≡ (d, [])
  unfolding push_settings State.error
  push_settings-failed client_id = ground arith

  pub push_each-failed :
      (ids : List Text)
      → push_each JsonError PublishError settings_json notification_json broker_publish d mode
          saving ids
        ≡ (d, [])
  unfolding push_each
  push_each-failed [] = refl
  push_each-failed (client_id ∷ ids) =
      rw (push_settings-failed client_id) (rw (push_each-failed ids) refl)

module _ (JsonError PublishError : Type 0)
    (settings_json : Payload.Settings → Result JsonError Text)
    (notification_json : Notification → Result JsonError Text)
    (broker_publish : Publish → Result PublishError (Unit {0})) (d : Devices) (e : StateError)
    (failed : d.failures.first ≡ some e) where
  pub publish_notification-failed :
      (client_id : Text) (notification : Notification)
      → publish_notification JsonError PublishError settings_json notification_json broker_publish d
          client_id notification
        ≡ (err (state e), [])
  unfolding publish_notification State.error
  publish_notification-failed client_id notification = ground arith

-- The devices after the list of them was read, `ids` being what the registry answered.
listed-failed :
    (d : Devices) (e : StateError) (ids : Result StateError (List Text))
    → d.failures.first ≡ some e
    → ClientState.connected_ids d.registry ≡ ids
    → (connected_ids d).1.failures.first ≡ some e
unfolding connected_ids
listed-failed d e (ok ids) h eq = rw (eq, connected_ids) h
listed-failed d e (err x) h eq = rw (eq, connected_ids) (report-first d e x h)

module _ (JsonError PublishError : Type 0)
    (settings_json : Payload.Settings → Result JsonError Text)
    (notification_json : Notification → Result JsonError Text)
    (broker_publish : Publish → Result PublishError (Unit {0})) (d : Devices) (e : StateError)
    (failed : d.failures.first ≡ some e) (mode : Mode) (saving : Bool) where
  -- Nothing is pushed to any of the devices, and the failure stays.
  pub push_settings_to_all-failed :
      let (d', sent) =
        push_settings_to_all JsonError PublishError settings_json notification_json broker_publish d
          mode saving in
      (d'.failures.first ≡ some e) × (sent ≡ [])
  unfolding push_settings_to_all
  push_settings_to_all-failed =
      let (ids, d') = connected_ids d in
      let h = listed-failed d e (ClientState.connected_ids d.registry) failed refl in
      let eq =
        push_each-failed JsonError PublishError settings_json notification_json broker_publish d' e
          h mode saving ids in
      (rw eq h, rw eq refl)
