-- ===== src/Weather/Events.antt =====
-- src/weather/events/mod.rs: the severe-weather events in a forecast.
--
-- The source hands on `points` and an index; here the point of the index is an argument too.
pub mod Slots
pub mod Least
pub mod Detected
use awtrix_controller.Prelude.{
  ℕ, ◌+◌, ◌*◌, ◌≡◌, ◌&&◌, ◌||◌, Bool, true, false, Option, none, some, List, [], ◌∷◌, ◌++◌, ltb,
  leb, any, filter, filter_map, unwrap_or, if◌then◌else◌,
}
use awtrix_controller.Prelude.Int.{ℤ, pos, ◌*ℤ◌, saturating_mul, div_euclid, eqb_ℤ}
use awtrix_controller.Prelude.Text.{Text, bytes}
use awtrix_controller.Prelude.Decimal.{show_ℕ, show_ℤ}
use awtrix_controller.Instants.{Timestamp, SignedDuration, Instants, Floats}
use awtrix_controller.Weather.Wmo
use awtrix_controller.Weather.Forecast.{ForecastPoint}
use awtrix_controller.Weather.Config.{WeatherConfig}
use awtrix_controller.Weather.EventType.{
  EventType, thunderstorm, freezing_precip, frost_risk, heavy_rain, strong_gusts, snow, fog,
  all_types, index, Severity, warning, severe, level, EventCandidate, update,
}

pub record Detection : Type 0 where
  pub first : Timestamp
  pub severity : Severity

abbrev pub Detections : Type 0
Detections = EventType → Option Detection

-- `Timestamp::min` and `Severity::max`.
abbrev pub earlier : Timestamp → Timestamp → Timestamp
earlier a b = if leb a b then a else b

abbrev pub higher : Severity → Severity → Severity
higher a b = if ltb (level b) (level a) then a else b

-- The `match` of `record_event`.
unfoldable pub merge : Option Detection → Timestamp → Severity → Detection
merge none time severity = record { first = time; severity = severity }
merge (some existing) time severity = record {
  first = earlier existing.first time;
  severity = higher existing.severity severity;
}

unfoldable pub record_event : Detections → EventType → Timestamp → Severity → Detections
record_event detections event_type time severity =
    update detections event_type (some (merge (detections event_type) time severity))

-- `if let Some(severity) = … { record(event_type, severity); }`.
unfoldable pub record_found : Detections → EventType → Timestamp → Option Severity → Detections
record_found detections event_type time none = detections
record_found detections event_type time (some severity) =
    record_event detections event_type time severity

-- `Option::is_some_and` and `bool::then_some`.
abbrev pub is_some_and {ℓ} : {A : Type ℓ} → Option A → (A → Bool) → Bool
is_some_and none p = false
is_some_and (some a) p = p a

abbrev pub then_some {ℓ} : {A : Type ℓ} → Bool → A → Option A
then_some b a = if b then some a else none

abbrev pub is_freezing_precip_code : ℤ → Bool
is_freezing_precip_code = Wmo.is_freezing

unfoldable pub rounded_start : Instants → Timestamp → ℤ
rounded_start time first = div_euclid (time.as_second first) 1800 *ℤ pos 1800

unfoldable pub fingerprint_of : Instants → EventType → Detection → Text
fingerprint_of time event_type detection =
    show_ℕ (index event_type)
    ++ (bytes ":"
        ++ (show_ℤ (rounded_start time detection.first)
            ++ (bytes ":" ++ show_ℕ (level detection.severity))))

-- The candidate of a type that was detected.
abbrev pub candidate_from : Instants → EventType → Detection → EventCandidate
candidate_from time event_type detection = record {
  event_type = event_type;
  start_time = detection.first;
  severity = detection.severity;
  fingerprint = fingerprint_of time event_type detection;
}

module _ (time : Instants) (fl : Floats) where
  -- `SignedDuration::MAX` is the parameter's `duration_max`.
  abbrev pub Point : Type 0
  Point = ForecastPoint fl.F

  unfoldable pub thunderstorm_of : Point → Option Severity
  thunderstorm_of point = elim point.weather_code [
    | none ↦ none
    | some code ↦
        if eqb_ℤ code Wmo.thunderstorm
        then some warning
        else if eqb_ℤ code Wmo.thunderstorm_hail || eqb_ℤ code Wmo.thunderstorm_heavy_hail
        then some severe
        else none
  ]

  unfoldable pub has_precipitation_in_window : Point → List Point → SignedDuration → fl.F → Bool
  has_precipitation_in_window at points window minimum =
      let origin = at.time in
      let cutoff = unwrap_or (time.saturating_add origin window) origin in
      any (λ p. is_some_and p.precipitation (λ x. fl.le minimum x))
        (filter (λ p. leb origin p.time && leb p.time cutoff) points)

  -- `temperature_2m.zip(…)` with a test of both.
  abbrev pub both : Option fl.F → Option fl.F → (fl.F → fl.F → Bool) → Bool
  both (some a) (some b) p = p a b
  both (some a) none p = false
  both none b p = false

  unfoldable pub freezing_precipitation : Point → Bool
  freezing_precipitation point =
      both point.temperature_2m point.precipitation (λ temperature precipitation.
        fl.le temperature (fl.literal 5 1) && fl.le (fl.literal 1 1) precipitation)

  unfoldable pub frost_risk_of : Point → List Point → WeatherConfig fl.F → Option Severity
  frost_risk_of point points config =
      if is_some_and point.weather_code is_freezing_precip_code || freezing_precipitation point
      then some severe
      else then_some
          (both point.temperature_2m point.dew_point_2m (λ temperature dew_point.
            let frost_possible =
              fl.le temperature config.frost_temp_c
              && fl.le (fl.minus temperature dew_point) config.frost_dew_point_delta_c in
            let window =
              unwrap_or
                (fl.try_from_secs_f64
                  (fl.times config.frost_warn_precip_window_h (fl.literal 3600 0)))
                time.duration_max in
            frost_possible
            && has_precipitation_in_window point points window config.frost_warn_precip_mm))
          warning

  unfoldable pub heavy_rain_of : Point → WeatherConfig fl.F → Option Severity
  heavy_rain_of point config =
      if is_some_and point.weather_code Wmo.is_storm
      then some severe
      else then_some
          (is_some_and point.precipitation (λ x. fl.lt config.heavy_rain_mm_per_15_min x)) warning

  unfoldable pub strong_gusts_of : Point → WeatherConfig fl.F → Option Severity
  strong_gusts_of point config = elim point.wind_gusts_10m [
    | none ↦ none
    | some gusts ↦
        if fl.lt config.gust_severe_kmh gusts
        then some severe
        else if fl.lt config.gust_warn_kmh gusts
        then some warning
        else none
  ]

  unfoldable pub snow_of : Point → Option Severity
  snow_of point =
      let heavy = is_some_and point.snowfall (λ x. fl.lt (fl.literal 5 1) x) in
      if is_some_and point.weather_code Wmo.is_snow
      then some (if heavy then severe else warning)
      else none

  unfoldable pub fog_of : Point → WeatherConfig fl.F → Option Severity
  fog_of point config =
      if is_some_and point.weather_code Wmo.is_fog
      then elim point.visibility [
        | some visibility ↦
            if fl.lt visibility config.fog_visibility_severe_m
            then some severe
            else then_some (fl.lt visibility config.fog_visibility_warn_m) warning
        | none ↦ some warning
      ]
      else none

  abbrev pub is_notify_enabled : EventType → WeatherConfig fl.F → Bool
  is_notify_enabled thunderstorm config = config.notify_thunderstorm
  is_notify_enabled freezing_precip config = config.notify_freezing_precip
  is_notify_enabled frost_risk config = config.notify_frost_risk
  is_notify_enabled heavy_rain config = config.notify_heavy_rain
  is_notify_enabled strong_gusts config = config.notify_strong_gusts
  is_notify_enabled snow config = config.notify_snow
  is_notify_enabled fog config = config.notify_fog

  unfoldable pub check_point : Point → List Point → WeatherConfig fl.F → Detections → Detections
  check_point point points config d0 =
      let d1 = record_found d0 thunderstorm point.time (thunderstorm_of point) in
      let d2 =
        record_found d1 freezing_precip point.time
          (then_some (is_some_and point.weather_code is_freezing_precip_code) severe) in
      let d3 = record_found d2 frost_risk point.time (frost_risk_of point points config) in
      let d4 = record_found d3 heavy_rain point.time (heavy_rain_of point config) in
      let d5 = record_found d4 strong_gusts point.time (strong_gusts_of point config) in
      let d6 = record_found d5 snow point.time (snow_of point) in
      record_found d6 fog point.time (fog_of point config)

  unfoldable pub notification_horizon : Timestamp → WeatherConfig fl.F → Timestamp
  notification_horizon now config =
      unwrap_or
        (time.saturating_add now
          (time.from_secs (saturating_mul config.notification_horizon_hours (pos 3600))))
        now

  -- The loop of `detect_events`, over the points that are left.
  unfoldable pub check_points :
      List Point → List Point → Timestamp → Timestamp → WeatherConfig fl.F → Detections → Detections
  check_points [] points now horizon config detections = detections
  check_points (point ∷ rest) points now horizon config detections =
      let outside = ltb point.time now || ltb horizon point.time in
      check_points rest points now horizon config
        (if outside then detections else check_point point points config detections)

  unfoldable pub candidate_of : Detections → EventType → Option EventCandidate
  candidate_of detections event_type = elim (detections event_type) [
    | none ↦ none
    | some detection ↦ some (candidate_from time event_type detection)
  ]

  unfoldable pub detect_events : List Point → Timestamp → WeatherConfig fl.F → List EventCandidate
  detect_events points now config =
      let detections =
        check_points points points now (notification_horizon now config) config (λ _. none) in
      filter_map (candidate_of detections)
        (filter (λ event_type. is_notify_enabled event_type config) all_types)
