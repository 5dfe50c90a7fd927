-- ===== src/Tests/Runs.antt =====
-- Runs of the wiring: the arguments, the main loop and the exit.
use awtrix_controller.Prelude.{
  ◌+◌, ◌≤◌, ◌≡◌, refl, ◌∷◌, true, false, none, some, List, [], Result, ok, arith, is_some,
}
use awtrix_controller.Prelude.Text.{Text, bytes}
use awtrix_controller.State
use awtrix_controller.State.{poisoned}
use awtrix_controller.ClientState
use awtrix_controller.Settings
use awtrix_controller.Settings.{builder_new}
use awtrix_controller.Model.Settings as Payload
use awtrix_controller.Model.Payload.{Notification}
use awtrix_controller.DayNight.{day}
use awtrix_controller.Weather.Controller.{Self}
use awtrix_controller.Broker.Server.{shutdown}
use awtrix_controller.Broker.Server.Deadline.{shutdown-by_deadline}
use awtrix_controller.Run.Devices.{Devices, Publish, retained, report}
use awtrix_controller.Run.Devices
use awtrix_controller.Run.Loop.{
  connected, Moment, Happening, stop_requested, queued, reported, Ended, handle, main_loop,
}
use awtrix_controller.Run.Loop.Exits.{main_loop-outcome}
use awtrix_controller.Run.Loop.Quiet.{handle-failed}
use awtrix_controller.Tests.Samples.{clock, hundredths, zones}
use awtrix_controller.Tests.Configs.{config}

abbrev pub settings_json : Payload.Settings → Result (Unit {0}) Text
settings_json _ = ok (bytes "{}")

abbrev pub notification_json : Notification → Result (Unit {0}) Text
notification_json _ = ok (bytes "{}")

-- The broker publishes everything.
abbrev pub broker_publish : Publish → Result (Unit {0}) (Unit {0})
broker_publish _ = ok tt

abbrev devices : Devices
devices = record {
  registry = ClientState.new;
  builder = builder_new config.theme;
  failures = State.new false;
}

abbrev pub Weather : Type 0
Weather = Self clock hundredths zones

abbrev pub moment : Moment Weather
moment = record {
  registry = ClientState.new;
  builder = builder_new config.theme;
  weather = none;
  mode = day;
  saving = false;
  now = 5;
}

-- A device connects, a failure is reported, and the stop comes too late.
abbrev pub happenings : List (Happening Weather)
happenings =
    queued (connected (bytes "matrix")) moment
    ∷ reported (poisoned (bytes "client registry"))
    ∷ stop_requested
    ∷ []

abbrev ended : Ended
ended = record {
  failed = true;
  devices = report (poisoned (bytes "client registry")) devices;
  sent =
      record { topic = bytes "matrix/settings"; payload = bytes "{}"; retention = retained } ∷ [];
}

loop_ends :
    main_loop
      (Unit {0})
      (Unit {0})
      settings_json
      notification_json
      broker_publish
      clock
      hundredths
      zones
      none
      devices
      []
      happenings
    ≡ some ended
unfolding main_loop handle Devices.push_settings Devices.push Settings.build Settings.topic
    builder_new State.report State.failed State.error State.new State.checked
loop_ends = refl

main_loop-outcome_example : ended.failed ≡ is_some ended.devices.failures.first
main_loop-outcome_example =
    main_loop-outcome (Unit {0}) (Unit {0}) settings_json notification_json broker_publish clock
      hundredths zones none happenings devices [] ended loop_ends

-- The registry was found poisoned.
abbrev failed_devices : Devices
failed_devices = record devices {
  failures = record { first = some (poisoned (bytes "client registry")); cancelled = true };
}

handle-failed_example :
    let (d', sent) =
      handle
        (Unit {0})
        (Unit {0})
        settings_json
        notification_json
        broker_publish
        clock
        hundredths
        zones
        failed_devices
        none
        none
        (connected (bytes "matrix"))
        day
        false
        5 in
    (d'.failures.first ≡ some (poisoned (bytes "client registry"))) × (sent ≡ [])
handle-failed_example =
    handle-failed (Unit {0}) (Unit {0}) settings_json notification_json broker_publish
      failed_devices (poisoned (bytes "client registry")) refl clock hundredths zones none none
      (connected (bytes "matrix")) day false 5

-- The sessions never go, and the thread takes too long.
late :
    (shutdown 1000 3000
      (record { kicked = some 10; drained = none; finished = some 900 })).returned_at
    ≡ 3100
unfolding shutdown
late = refl

shutdown-by_deadline_example :
    let s = shutdown 1000 3000 (record { kicked = some 10; drained = none; finished = some 900 }) in
    (s.returned_at ≤ 3000 + 100) × (1000 + s.request ≤ 3000)
shutdown-by_deadline_example =
    shutdown-by_deadline 1000 3000
      (record { kicked = some 10; drained = none; finished = some 900 }) (omega arith)
