-- ===== src/Tests/Controllers.antt =====
-- Runs of the weather controller.
use awtrix_controller.Prelude.{ℕ, ◌≡◌, ◌↔◌, ◌≤◌, refl, false, none, some, List, [], ◌∷◌, Memᴰ, ok}
use awtrix_controller.Prelude.Int.{pos}
use awtrix_controller.Prelude.Text.{Text, bytes}
use awtrix_controller.Model.Enums.{OverlayEffect, thunder}
use awtrix_controller.Weather.EventType.{EventCandidate}
use awtrix_controller.Weather.Forecast.{ForecastPoint}
use awtrix_controller.Weather.Mapping.{select_overlay, priority}
use awtrix_controller.Weather.Mapping.Choice.{Shows, select_overlay-strongest}
use awtrix_controller.Weather.Controller
use awtrix_controller.Weather.Controller.{
  Self, Fetched, points, fetch_error, elapsed, poll, publish,
}
use awtrix_controller.Weather.Controller.Equations.{change}
use awtrix_controller.Weather.Controller.Overlay.{shown, IsChanging, poll-overlay}
use awtrix_controller.Weather.Controller.Cache.{Batches, poll-last_notified}
use awtrix_controller.Weather.Controller.Replay.{IsReplay, on_device_connected_iff, poll_failed}
use awtrix_controller.Tests.Samples.{
  clock, hundredths, zones, config, stormy, minute_ns, storm_warning,
}

abbrev started : Self clock hundredths zones
started = Controller.with_fetch_function clock hundredths zones config 5252 1340 []

-- A minute after a poll that published the storm, with its overlay shown.
abbrev warned : Self clock hundredths zones
warned = record started {
  memory = record {
    value = record {
      overlay = some thunder;
      last_notified =
          some (record { candidates = storm_warning ∷ []; notified_at = 1; fetched_at = 0 });
    };
    is_poisoned = false;
  };
}

abbrev one_device : EventCandidate → List Text
one_device _ = bytes "matrix" ∷ []

none_remembered : none ≡ started.memory.value.overlay
unfolding Controller.with_fetch_function
none_remembered = refl

poll-overlay_example :
    let o = poll clock hundredths zones started one_device 0 1 (points stormy) in
    (shown none o.requests ≡ o.after.memory.value.overlay) × IsChanging none o.requests
poll-overlay_example =
    poll-overlay clock hundredths zones started one_device 0 1 (points stormy) none none_remembered

poll-last_notified_example :
    let o = poll clock hundredths zones started one_device 0 1 (points stormy) in
    Batches clock hundredths zones started one_device 0 1 o.requests o.after
poll-last_notified_example =
    poll-last_notified clock hundredths zones started one_device 0 1 (points stormy)

on_device_connected_iff_example :
    Memᴰ
      (publish
        (bytes "matrix")
        (Controller.notification clock hundredths zones warned storm_warning))
      (Controller.on_device_connected clock hundredths zones warned
        (bytes "matrix")
        minute_ns).requests
    ↔ IsReplay clock hundredths zones warned
        (bytes "matrix")
        minute_ns
        warned.memory.value.last_notified
        (publish
          (bytes "matrix")
          (Controller.notification clock hundredths zones warned storm_warning))
on_device_connected_iff_example =
    on_device_connected_iff clock hundredths zones warned (bytes "matrix") minute_ns
      (publish (bytes "matrix")
        (Controller.notification clock hundredths zones warned storm_warning))
      refl

states_free : warned.states.is_poisoned ≡ false
unfolding Controller.with_fetch_function
states_free = refl

poll_failed_example :
    let o = poll clock hundredths zones warned one_device 0 1 fetch_error in
    (poll clock hundredths zones warned one_device 0 1 elapsed ≡ o)
    × (o.result ≡ ok tt)
    × (o.after.memory.value.overlay ≡ none)
    × (o.requests ≡ change (some thunder) none)
    × (o.after.states ≡ warned.states)
    × (o.after.memory.value.last_notified ≡ warned.memory.value.last_notified)
poll_failed_example = poll_failed clock hundredths zones warned one_device 0 1 refl states_free

select_overlay-strongest_example :
    let selected = select_overlay clock stormy 0 (pos 60) in
    ((o : OverlayEffect)
      → selected ≡ some o
      → (p : ForecastPoint ℕ) × Memᴰ p stormy × Shows clock 0 (pos 60) p o)
    × ((p : ForecastPoint ℕ) (o : OverlayEffect)
        → Memᴰ p stormy
        → Shows clock 0 (pos 60) p o
        → (best : OverlayEffect) × (selected ≡ some best)
          × (priority (some o) ≤ priority (some best)))
select_overlay-strongest_example = select_overlay-strongest clock 0 (pos 60) stormy
