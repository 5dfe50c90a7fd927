-- ===== src/Tests/Forecasts.antt =====
-- Runs of the weather code.
use awtrix_controller.Prelude.{
  ℕ, ◌*◌, ◌≡◌, ◌↔◌, ◌≤◌, refl, true, false, some, List, [], ◌∷◌, Memᴰ, arith, inl,
}
use awtrix_controller.Prelude.Int.{pos}
use awtrix_controller.Weather.EventType.{
  EventType, thunderstorm, Severity, severe, warning, level, EventCandidate,
}
use awtrix_controller.Weather.State
use awtrix_controller.Weather.State.{EventState, latest, process, is_active}
use awtrix_controller.Weather.State.PerType.{IsNews, process_notifies}
use awtrix_controller.Weather.State.Bounds.{IsValid, process-IsValid}
use awtrix_controller.Weather.State.Deactivation.{Poll, IsAbsent, poll_all, poll_all-is_active}
use awtrix_controller.Prelude.Decimal.{show_ℕ, show_ℤ}
use awtrix_controller.Prelude.Int.{◌*ℤ◌, saturating_mul, div_euclid}
use awtrix_controller.Weather.Forecast.{ForecastPoint}
use awtrix_controller.Weather.Events
use awtrix_controller.Weather.Events.{detect_events}
use awtrix_controller.Weather.Events.Detected.{
  Qualifies, detect_events_sound, detect_events_complete,
}
use awtrix_controller.Tests.Samples.{
  clock, hundredths, minute_ns, config, coded, stormy, storm_warning,
}

process_notifies_example :
    Memᴰ storm_warning (process clock 0 (pos 10) (pos 2) State.new (storm_warning ∷ [])).1 ↔ (
      (latest (storm_warning ∷ []) thunderstorm ≡ some storm_warning)
      × IsNews clock 0 (pos 10) State.default storm_warning)
unfolding State.new
process_notifies_example =
    process_notifies clock 0 (pos 10) (pos 2) State.new (storm_warning ∷ []) storm_warning

new-IsValid : (e : EventType) → IsValid 2 (State.new e)
unfolding State.new
new-IsValid e = inl (refl, refl)

-- Two polls without the storm, of which the second makes it inactive.
abbrev two_polls : List Poll
two_polls = record { now = 900; candidates = [] } ∷ record { now = 1800; candidates = [] } ∷ []

none_detected : IsAbsent thunderstorm two_polls
unfolding latest
none_detected = (refl, (refl, tt))

abbrev after_storm : State.StateManager
after_storm = (process clock 0 (pos 10) (pos 2) State.new (storm_warning ∷ [])).0

storm_active : (after_storm thunderstorm).active ≡ true
unfolding process latest State.should_notify State.seen State.new
storm_active = refl

storm_seen : (after_storm thunderstorm).missing_polls ≡ pos 0
unfolding process latest State.should_notify State.seen State.new
storm_seen = refl

poll_all-is_active_example :
    is_active (poll_all clock (pos 10) (pos 2) after_storm two_polls) thunderstorm ≡ false
poll_all-is_active_example =
    poll_all-is_active clock (pos 10) 2 after_storm two_polls thunderstorm (omega arith)
      (omega arith) none_detected storm_active storm_seen

process-IsValid_example :
    IsValid 2 ((process clock 0 (pos 10) (pos 2) State.new (storm_warning ∷ [])).0 thunderstorm)
process-IsValid_example =
    process-IsValid clock 0 (pos 10) 2 State.new (storm_warning ∷ []) (omega arith) (omega arith)
      new-IsValid thunderstorm

storm_detected : Memᴰ storm_warning (detect_events clock hundredths stormy 0 config)
unfolding detect_events Events.check_points Events.check_point Events.notification_horizon
    Events.record_found Events.record_event Events.merge Events.thunderstorm_of Events.frost_risk_of
    Events.freezing_precipitation Events.heavy_rain_of Events.strong_gusts_of Events.snow_of
    Events.fog_of Events.candidate_of Events.fingerprint_of Events.rounded_start
    Events.has_precipitation_in_window show_ℕ show_ℤ ◌*ℤ◌ saturating_mul div_euclid
storm_detected = Memᴰ.head refl

abbrev first_storm : ForecastPoint ℕ
first_storm = coded (15 * minute_ns) 95

first_storm-Qualifies : Qualifies clock hundredths stormy 0 config thunderstorm first_storm warning
unfolding Events.thunderstorm_of Events.notification_horizon saturating_mul ◌*ℤ◌
first_storm-Qualifies = (Memᴰ.head refl, omega arith, omega arith, refl)

detect_events_sound_example :
    (true ≡ true)
    × ((p : ForecastPoint ℕ) × (s : Severity) × Qualifies clock hundredths stormy 0 config
          thunderstorm p s
        × (p.time ≡ 15 * minute_ns))
    × ((p : ForecastPoint ℕ) × Qualifies clock hundredths stormy 0 config thunderstorm p severe)
    × ((p : ForecastPoint ℕ) (s : Severity)
        → Qualifies clock hundredths stormy 0 config thunderstorm p s
        → (15 * minute_ns ≤ p.time) × (level s ≤ 2))
detect_events_sound_example =
    detect_events_sound clock hundredths stormy 0 config storm_warning storm_detected

detect_events_complete_example :
    (c : EventCandidate) × Memᴰ c (detect_events clock hundredths stormy 0 config)
    × (c.event_type ≡ thunderstorm)
detect_events_complete_example =
    detect_events_complete clock hundredths stormy 0 config thunderstorm first_storm warning refl
      first_storm-Qualifies
