-- ===== src/Tests/Samples.antt =====
-- Concrete instants, floats, devices and forecasts for the runs.
use awtrix_controller.Prelude.{
  ℕ, zero, suc, ◌+◌, ◌-◌, ◌*◌, ◌/◌, true, false, none, some, List, [], ◌∷◌, ltb, leb,
}
use awtrix_controller.Prelude.Int.{pos, sub_ℕ, pos_part}
use awtrix_controller.Prelude.Text.{bytes}
use awtrix_controller.Prelude.Decimal.{show_ℕ}
use awtrix_controller.Instants.{Instants, Floats}
use awtrix_controller.Config.Timezone.{Zones}
use awtrix_controller.ClientState.{Registry}
use awtrix_controller.Broker.Hook.{RmqttId, ControllerHook}
use awtrix_controller.Weather.Forecast.{ForecastPoint}
use awtrix_controller.Weather.Config.{WeatherConfig}
use awtrix_controller.Weather.EventType.{thunderstorm, severe, EventCandidate}

-- Instants in nanoseconds since an epoch at 0, of which the durations below go forward.
abbrev pub clock : Instants
clock = record {
  saturating_add = λ t d. some (t + pos_part d);
  duration_since = λ a b. sub_ℕ a b;
  from_secs = λ s. pos (pos_part s * 1000000000);
  duration_max = pos 9223372036854775807999999999;
  as_second = λ t. pos (t / 1000000000);
}

-- `n / 10 ^ k` in hundredths, for up to two places.
abbrev scaled : ℕ → ℕ → ℕ
scaled n zero = n * 100
scaled n (suc zero) = n * 10
scaled n (suc (suc _)) = n

-- Fixed-point numbers in hundredths, from 0.
abbrev pub hundredths : Floats
hundredths = record {
  F = ℕ;
  lt = λ a b. ltb a b;
  le = λ a b. leb a b;
  minus = λ a b. a - b;
  times = λ a b. a * b / 100;
  literal = scaled;
  try_from_secs_f64 = λ s. some (pos (s * 10000000));
  is_finite = λ _. true;
  from_int = λ n. pos_part n * 100;
  trunc = λ x. pos (x / 100);
  fits_i64 = λ _. true;
  parse = λ _. none;
  show = λ x. show_ℕ (x / 100);
}

abbrev pub zones : Zones
zones = record {
  Zone = Unit {0};
  utc = tt;
  system = tt;
  get = λ _. none;
  iana_name = λ _. none;
  hours_minutes = λ _ _. bytes "12:00";
}

abbrev pub minute_ns : ℕ
minute_ns = 60000000000

abbrev pub config : WeatherConfig ℕ
config = record {
  enabled = true;
  poll_interval_minutes = pos 15;
  overlay_horizon_minutes = pos 60;
  notification_horizon_hours = pos 2;
  notification_repeat_minutes = pos 60;
  inactive_after_missing_polls = pos 2;
  data_stale_ttl_minutes = pos 120;
  notification_text_repeat = pos 2;
  gust_warn_kmh = 4500;
  gust_severe_kmh = 6000;
  heavy_rain_mm_per_15_min = 500;
  fog_visibility_warn_m = 100000;
  fog_visibility_severe_m = 20000;
  frost_temp_c = 150;
  frost_dew_point_delta_c = 100;
  frost_warn_precip_window_h = 200;
  frost_warn_precip_mm = 10;
  notify_thunderstorm = true;
  notify_freezing_precip = true;
  notify_frost_risk = true;
  notify_heavy_rain = true;
  notify_strong_gusts = true;
  notify_snow = true;
  notify_fog = true;
  rtttl = [];
}

-- A step of the forecast with a code and nothing else.
abbrev pub coded : ℕ → ℕ → ForecastPoint ℕ
coded t code = record {
  time = t;
  weather_code = some (pos code);
  precipitation = none;
  snowfall = none;
  temperature_2m = none;
  dew_point_2m = none;
  wind_gusts_10m = none;
  visibility = none;
}

-- A thunderstorm in 15 minutes, with hail in 30.
abbrev pub stormy : List (ForecastPoint ℕ)
stormy = coded (15 * minute_ns) 95 ∷ coded (30 * minute_ns) 96 ∷ []

abbrev pub storm_warning : EventCandidate
storm_warning = record {
  event_type = thunderstorm;
  start_time = 15 * minute_ns;
  severity = severe;
  fingerprint = bytes "0:0:2";
}

abbrev pub matrix : RmqttId
matrix = record { client_id = bytes "matrix"; create_time = pos 7; remote_addr = some 1 }

-- The same device, connected again.
abbrev pub matrix_again : RmqttId
matrix_again = record { client_id = bytes "matrix"; create_time = pos 9; remote_addr = some 2 }

abbrev pub open_hook : ControllerHook
open_hook = record {
  username = bytes "user";
  password = bytes "secret";
  registry = record { clients = record { value = []; is_poisoned = false } };
  closing = false;
  connections = record { value = []; is_poisoned = false };
  called = [];
}

abbrev pub poisoned_hook : ControllerHook
poisoned_hook = record open_hook { connections = record { value = []; is_poisoned = true } }

abbrev pub poisoned_registry : Registry
poisoned_registry = record { clients = record { value = []; is_poisoned = true } }
