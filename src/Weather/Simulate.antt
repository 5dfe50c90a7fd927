-- ===== src/Weather/Simulate.antt =====
-- src/weather/simulate/mod.rs: the synthetic forecast for local debugging. The warning and the reading of
-- the wall clock are left out: the instant is an argument.
use awtrix_controller.Prelude.{ℕ, zero, suc, ◌-◌, ◌*◌, ◌/◌, ◌∷◌, Option, some, List, [], unwrap_or}
use awtrix_controller.Prelude.Int.{ℤ, pos, negsuc, ◌*ℤ◌}
use awtrix_controller.Instants.{Timestamp, Instants, Floats}
use awtrix_controller.Weather.Forecast.{ForecastPoint}

-- `STEP_SECONDS` and `STEPS`.
abbrev pub step_seconds : ℕ
step_seconds = 900

abbrev pub steps : ℕ
steps = 48

-- `div_euclid` by a positive number.
abbrev pub div_euclid : ℤ → ℕ → ℤ
div_euclid (pos n) d = pos (n / d)
div_euclid (negsuc n) d = negsuc (n / d)

-- `Timestamp::from_second`, `none` for its error.
module _ (inst : Instants) (fl : Floats) (from_second : ℤ → Option Timestamp) where
  -- The constants are decimal literals.
  abbrev pub point : ℤ → Timestamp → ForecastPoint fl.F
  point code t = record {
    time = t;
    weather_code = some code;
    precipitation = some (fl.literal 60 1);
    snowfall = some (fl.literal 10 1);
    temperature_2m = some (fl.literal 15 1);
    dew_point_2m = some (fl.literal 0 1);
    wind_gusts_10m = some (fl.literal 500 1);
    visibility = some (fl.literal 1500 1);
  }

  abbrev pub first_step : Timestamp → Timestamp
  first_step now =
      unwrap_or (from_second (div_euclid (inst.as_second now) step_seconds *ℤ pos step_seconds)) now

  abbrev pub step_time : Timestamp → ℕ → Timestamp
  step_time first step =
      unwrap_or (inst.saturating_add first (inst.from_secs (pos (step * step_seconds)))) first

  -- The steps that are left, of `steps`.
  unfoldable pub steps_from : ℤ → Timestamp → ℕ → List (ForecastPoint fl.F)
  steps_from code first zero = []
  steps_from code first (suc left) =
      point code (step_time first (steps - suc left)) ∷ steps_from code first left

  unfoldable pub synthetic_forecast : ℤ → Timestamp → List (ForecastPoint fl.F)
  synthetic_forecast code now = steps_from code (first_step now) steps
