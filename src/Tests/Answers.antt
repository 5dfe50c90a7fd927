-- ===== src/Tests/Answers.antt =====
-- Runs of the forecast's request and of its answer.
use awtrix_controller.Prelude.{
  ℕ, ◌≡◌, refl, ◌==◌, ◌∷◌, Bool, Option, none, some, [], ok, arith, unwrap_or,
}
use awtrix_controller.Prelude.Int.{pos}
use awtrix_controller.Prelude.Text.{Text, bytes}
use awtrix_controller.Clock.{Date, Time, Calendar}
use awtrix_controller.Config.Timezone.{load_time_zone}
use awtrix_controller.Weather.Forecast.{ForecastPoint}
use awtrix_controller.Weather.Fetch.{
  RawMinutely, RawResponse, no_arrays, items, zone_of, query_escape, parse_raw, parse_minutely,
  points_from, parse_time, item, of_length,
}
use awtrix_controller.Weather.Fetch
use awtrix_controller.Weather.Fetch.Steps.{AreComplete, AreSteps, parse_raw-AreSteps}
use awtrix_controller.Weather.Fetch.Escape.{decode_query, plain, decode_query-query_escape}
use awtrix_controller.Tests.Samples.{hundredths, zones}
use awtrix_controller.Tests.Calendars.{at, utc}

-- The hour of the first day that the text is as long as.
abbrev noon : Text → Option (Date × Time)
noon _ = some (10, 720)

abbrev in_utc : Unit {0} → Calendar
in_utc _ = utc

abbrev is_absent : ℕ → Bool
is_absent v = v == 999

-- One step, whose visibility is marked as absent.
abbrev raw : RawResponse ℕ
raw = record {
  minutely_15 = some (record {
    times = some (some (bytes "2026-01-11T12:00") ∷ []);
    weather_code = some (some (pos 95) ∷ []);
    precipitation = some (some 120 ∷ []);
    snowfall = some (none ∷ []);
    temperature_2m = some (some 1500 ∷ []);
    dew_point_2m = some (some 900 ∷ []);
    wind_gusts_10m = some (some 4000 ∷ []);
    visibility = some (some 999 ∷ []);
  });
}

abbrev step : ForecastPoint ℕ
step = record {
  time = at 10 720;
  weather_code = some (pos 95);
  precipitation = some 120;
  snowfall = none;
  temperature_2m = some 1500;
  dew_point_2m = some 900;
  wind_gusts_10m = some 4000;
  visibility = none;
}

accepted :
    parse_raw hundredths zones in_utc noon
      (Unit {0})
      (Unit {0})
      (Unit {0})
      is_absent
      raw
      (bytes "Europe/Berlin")
    ≡ ok (step ∷ [])
unfolding parse_raw parse_minutely points_from parse_time item Fetch.missing load_time_zone
accepted = refl

parse_raw-AreSteps_example :
    let minutely = unwrap_or raw.minutely_15 no_arrays in
    AreComplete minutely
    × AreSteps hundredths zones in_utc noon
        (Unit {0})
        (Unit {0})
        (Unit {0})
        is_absent
        minutely
        (zone_of hundredths zones in_utc noon
          (Unit {0})
          (Unit {0})
          (Unit {0})
          is_absent
          (load_time_zone zones (bytes "Europe/Berlin")))
        0
        (items minutely.times)
        (step ∷ [])
parse_raw-AreSteps_example =
    parse_raw-AreSteps hundredths zones in_utc noon (Unit {0}) (Unit {0}) (Unit {0}) is_absent raw
      (bytes "Europe/Berlin") (step ∷ []) accepted

-- A slash and a space are escaped, the letters are kept.
decode_query-query_escape_example : decode_query plain (query_escape (bytes "a /b")) ≡ bytes "a /b"
decode_query-query_escape_example = decode_query-query_escape (bytes "a /b") (ground arith)
