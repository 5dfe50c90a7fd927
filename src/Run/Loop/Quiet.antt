-- ===== src/Run/Loop/Quiet.antt =====
-- src/run/mod.rs: what the handlers of events do once a failure is recorded.
use awtrix_controller.Prelude.{
  ◌≡◌, refl, ap, ◌∷◌, Bool, Option, none, some, List, [], Result, ok, err,
}
use awtrix_controller.Prelude.Text.{Text}
use awtrix_controller.Instants.{Timestamp, Instants, Floats}
use awtrix_controller.Config.Timezone.{Zones}
use awtrix_controller.State.{StateError}
use awtrix_controller.Model.Settings as Payload
use awtrix_controller.Model.Payload.{Notification}
use awtrix_controller.DayNight.{Mode}
use awtrix_controller.Weather.Controller
use awtrix_controller.Weather.Controller.{Self, Request, Outcome, on_device_connected}
use awtrix_controller.Run.Devices.{Devices, Publish}
use awtrix_controller.Run.Devices.Failed.{
  report-first, push_settings-failed, push_settings_to_all-failed, publish_notification-failed,
}
use awtrix_controller.Run.Loop.{
  Event, connected, ready, push_all, serve, serve_all, test_sent, after_replay, handle_ready,
  handle,
}

-- Nothing was sent, and the failure is still the first.
abbrev pub IsQuiet : StateError → Devices × List Publish → Type 0
IsQuiet e (d, sent) = (d.failures.first ≡ some e) × (sent ≡ [])

module _ (JsonError PublishError : Type 0)
    (settings_json : Payload.Settings → Result JsonError Text)
    (notification_json : Notification → Result JsonError Text)
    (broker_publish : Publish → Result PublishError (Unit {0})) (d : Devices) (e : StateError)
    (failed : d.failures.first ≡ some e) where
  module _ (time : Instants) (fl : Floats) (zones : Zones) where
    serve-failed :
        (request : Request)
        → serve JsonError PublishError settings_json notification_json broker_publish time fl zones
            d request
          ≡ []
    serve-failed (Controller.publish client_id notification) =
        ap (λ r. r.1)
          (publish_notification-failed JsonError PublishError settings_json notification_json
            broker_publish d e failed client_id notification)
    serve-failed (Controller.set_overlay overlay) = refl

    serve_all-failed :
        (requests : List Request)
        → serve_all JsonError PublishError settings_json notification_json broker_publish time fl
            zones d requests
          ≡ []
    unfolding serve_all
    serve_all-failed [] = refl
    serve_all-failed (request ∷ requests) = rw (serve-failed request) (serve_all-failed requests)

    test_sent-failed :
        (client_id : Text) (test : Option Notification)
        → test_sent JsonError PublishError settings_json notification_json broker_publish time fl
            zones d client_id test
          ≡ []
    test_sent-failed client_id none = refl
    test_sent-failed client_id (some notification) =
        serve-failed (Controller.publish client_id notification)

    -- The two results that the controller's replay can have.
    replayed-IsQuiet :
        (client_id : Text) (test : Option Notification) (o : Outcome time fl zones)
        → IsQuiet e (
            after_replay JsonError PublishError settings_json notification_json broker_publish time
              fl zones d client_id test o)
    replayed-IsQuiet client_id test o = replayed o.result refl
      where
        replayed :
            (r : Result StateError (Unit {0}))
            → o.result ≡ r
            → IsQuiet e (
                after_replay JsonError PublishError settings_json notification_json broker_publish
                  time fl zones d client_id test o)
        replayed (err x) eq = rw eq (report-first d e x failed, refl)
        replayed (ok _) eq =
            rw (eq, serve_all-failed o.requests, test_sent-failed client_id test) (failed, refl)

    -- Once a failure is recorded, the handler of each event sends the devices nothing and leaves that
    -- failure the first, also when it meets a further error.
    pub handle-failed :
        (weather : Option (Self time fl zones)) (test : Option Notification) (event : Event)
        (mode : Mode) (saving : Bool) (now : Timestamp)
        → let (d', sent) =
            handle JsonError PublishError settings_json notification_json broker_publish time fl
              zones d weather test event mode saving now in
          (d'.failures.first ≡ some e) × (sent ≡ [])
    unfolding handle handle_ready
    handle-failed weather test (connected client_id) mode saving now =
        rw
          (push_settings-failed JsonError PublishError settings_json notification_json
            broker_publish d e failed mode saving client_id)
          (failed, refl)
    handle-failed none test (ready client_id) mode saving now =
        (failed, test_sent-failed client_id test)
    handle-failed (some weather) test (ready client_id) mode saving now =
        replayed-IsQuiet client_id test (on_device_connected time fl zones weather client_id now)
    handle-failed weather test push_all mode saving now =
        push_settings_to_all-failed JsonError PublishError settings_json notification_json
          broker_publish d e failed mode saving
