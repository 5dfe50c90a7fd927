-- ===== src/Weather/Fetch.antt =====
-- src/weather/fetch/mod.rs: the request of a forecast and the reading of its answer. The HTTP agent, the
-- JSON reader and jiff's parser are parameters; the logs are left out.
pub mod Steps
pub mod Escape
use awtrix_controller.Prelude.{
  ℕ, suc, zero, ◌+◌, ◌-◌, ◌*◌, ◌/◌, ◌%◌, ◌∷◌, ◌++◌, ◌&&◌, ◌||◌, not, Bool, true, false, Option,
  none, some, List, [], leb, ltb, ◌==◌, any, length, unwrap_or, if◌then◌else◌, Result, ok, err,
  map_err, ok_or, ◌>>=◌,
}
use awtrix_controller.Prelude.Int.{ℤ}
use awtrix_controller.Prelude.Text.{Text, bytes}
use awtrix_controller.Prelude.Decimal.{show_ℕ}
use awtrix_controller.Instants.{Timestamp, Floats}
use awtrix_controller.Clock.{Date, Time, Calendar, resolve_local}
use awtrix_controller.Config.Timezone.{Zones, load_time_zone}
use awtrix_controller.Weather.Forecast.{ForecastPoint}

-- `request`, `decode` and `task` have the error of the agent, of the JSON reader and of the runtime.
pub data FetchError (RequestError JsonError JoinError : Type 0) : Type 0 where
  empty_arrays mismatched_arrays : FetchError RequestError JsonError JoinError
  http_status : ℕ → FetchError RequestError JsonError JoinError
  request : RequestError → FetchError RequestError JsonError JoinError
  decode : JsonError → FetchError RequestError JsonError JoinError
  time : Text → FetchError RequestError JsonError JoinError
  cancelled : FetchError RequestError JsonError JoinError
  task : JoinError → FetchError RequestError JsonError JoinError

-- An array whose values, and which itself, may be missing.
abbrev pub Values : Type 0 → Type 0
Values A = Option (List (Option A))

pub record RawMinutely (F : Type 0) : Type 0 where
  pub times : Values Text
  pub weather_code : Values ℤ
  pub precipitation : Values F
  pub snowfall : Values F
  pub temperature_2m : Values F
  pub dew_point_2m : Values F
  pub wind_gusts_10m : Values F
  pub visibility : Values F

-- `RawMinutely::default`.
abbrev pub no_arrays : {F : Type 0} → RawMinutely F
no_arrays = record {
  times = none;
  weather_code = none;
  precipitation = none;
  snowfall = none;
  temperature_2m = none;
  dew_point_2m = none;
  wind_gusts_10m = none;
  visibility = none;
}

pub record RawResponse (F : Type 0) : Type 0 where
  pub minutely_15 : Option (RawMinutely F)

-- `unwrap_or_default` of an array.
abbrev pub items : {A : Type 0} → Values A → List (Option A)
items values = unwrap_or values []

-- Indexing: the lengths have been checked, so no index is past the end.
unfoldable pub item : {A : Type 0} → List (Option A) → ℕ → Option A
item [] i = none
item (x ∷ xs) zero = x
item (x ∷ xs) (suc i) = item xs i

-- `vec![None; count]`.
unfoldable pub missing : {A : Type 0} → ℕ → List (Option A)
missing zero = []
missing (suc n) = none ∷ missing n

-- `filter` by the length, or nothing but missing values.
abbrev pub of_length : {A : Type 0} → ℕ → Values A → List (Option A)
of_length count none = missing count
of_length count (some values) = if length values == count then values else missing count

-- `Option::filter`.
abbrev pub keep_if : {A : Type 0} → (A → Bool) → Option A → Option A
keep_if p none = none
keep_if p (some a) = if p a then some a else none

abbrev pub differs : ℕ → ℕ → Bool
differs count n = not (n == count)

module _ (fl : Floats) (zones : Zones) (calendar : zones.Zone → Calendar)
    (strptime : Text → Option (Date × Time)) (RequestError JsonError JoinError : Type 0)
    -- Equality with the literal -999.
    (is_visibility_absent : fl.F → Bool) where
  abbrev pub resolved : zones.Zone → Option (Date × Time) → Option Timestamp
  resolved zone none = none
  resolved zone (some (date, clock)) = resolve_local (calendar zone) date clock

  unfoldable pub parse_time :
      Text → zones.Zone → Result (FetchError RequestError JsonError JoinError) Timestamp
  parse_time value zone = ok_or (resolved zone (strptime value)) (time value)

  abbrev pub zone_of : Result Text zones.Zone → zones.Zone
  zone_of (ok zone) = zone
  zone_of (err _) = zones.utc

  -- The point of one step, at a time.
  abbrev pub point_at : RawMinutely fl.F → ℕ → ℕ → Timestamp → ForecastPoint fl.F
  point_at raw count index t = record {
    time = t;
    weather_code = item (items raw.weather_code) index;
    precipitation = item (items raw.precipitation) index;
    snowfall = item (items raw.snowfall) index;
    temperature_2m = item (items raw.temperature_2m) index;
    dew_point_2m = item (items raw.dew_point_2m) index;
    wind_gusts_10m = item (items raw.wind_gusts_10m) index;
    visibility =
        keep_if (λ value. not (is_visibility_absent value))
          (item (of_length count raw.visibility) index);
  }

  -- The steps from an index on; the first time that does not parse ends them.
  unfoldable pub points_from :
      RawMinutely fl.F
      → ℕ
      → zones.Zone
      → ℕ
      → List (Option Text)
      → Result (FetchError RequestError JsonError JoinError) (List (ForecastPoint fl.F))
  points_from raw count zone index [] = ok []
  points_from raw count zone index (t ∷ times) = do
    instant ← parse_time (unwrap_or t []) zone
    points ← points_from raw count zone (suc index) times
    ok (point_at raw count index instant ∷ points)

  abbrev pub mismatched : RawMinutely fl.F → ℕ → Bool
  mismatched raw count = any (differs count) (
      length (items raw.weather_code)
      ∷ length (items raw.precipitation)
      ∷ length (items raw.snowfall)
      ∷ length (items raw.temperature_2m)
      ∷ length (items raw.dew_point_2m)
      ∷ length (items raw.wind_gusts_10m)
      ∷ [])

  unfoldable pub parse_minutely :
      RawMinutely fl.F
      → Text
      → Result (FetchError RequestError JsonError JoinError) (List (ForecastPoint fl.F))
  parse_minutely raw timezone =
      let count = length (items raw.times) in
      if count == 0
      then err empty_arrays
      else if mismatched raw count
      then err mismatched_arrays
      else points_from raw count (zone_of (load_time_zone zones timezone)) 0 (items raw.times)

  unfoldable pub parse_raw :
      RawResponse fl.F
      → Text
      → Result (FetchError RequestError JsonError JoinError) (List (ForecastPoint fl.F))
  parse_raw raw timezone = parse_minutely (unwrap_or raw.minutely_15 no_arrays) timezone

  -- What the agent answers: its error, or a status and the first JSON value of the body.
  unfoldable pub fetch_blocking :
      Result RequestError (ℕ × Result JsonError (RawResponse fl.F))
      → Text
      → Result (FetchError RequestError JsonError JoinError) (List (ForecastPoint fl.F))
  fetch_blocking (err e) timezone = err (request e)
  fetch_blocking (ok (status, body)) timezone =
      if not (status == 200)
      then err (http_status status)
      else (do raw ← map_err decode body; parse_raw raw timezone)

  -- `before`: the token is cancelled already; `during`: it is cancelled before the request is done. The
  -- `select!` is biased: a cancelled token is seen first.
  unfoldable pub fetch :
      Bool
      → Bool
      → Result JoinError
          (Result (FetchError RequestError JsonError JoinError) (List (ForecastPoint fl.F)))
      → Result (FetchError RequestError JsonError JoinError) (List (ForecastPoint fl.F))
  fetch before during joined_task =
      if before
      then err cancelled
      else if during
      then err cancelled
      else (do answer ← map_err task joined_task; answer)

-- `A`..`Z`, `a`..`z`, `0`..`9`, and four signs.
abbrev pub is_unreserved : ℕ → Bool
is_unreserved c =
    (leb b'A' c && leb c b'Z')
    || ((leb b'a' c && leb c b'z')
        || ((leb b'0' c && leb c b'9') || (c == b'-' || (c == b'_' || (c == b'.' || c == b'~')))))

-- A digit of `{:02X}`.
abbrev pub hex_digit : ℕ → ℕ
hex_digit n = if ltb n 10 then b'0' + n else b'A' + n - 10

unfoldable pub escape_byte : ℕ → Text
escape_byte byte =
    if is_unreserved byte
    then byte ∷ []
    else if byte == b' '
    then b'+' ∷ []
    else b'%' ∷ hex_digit (byte / 16) ∷ hex_digit (byte % 16) ∷ []

unfoldable pub query_escape : Text → Text
query_escape [] = []
query_escape (byte ∷ value) = escape_byte byte ++ query_escape value

-- `VARIABLES` and `FORECAST_STEPS`.
abbrev pub variables : Text
variables =
    bytes
      "weather_code,precipitation,snowfall,temperature_2m,dew_point_2m,wind_gusts_10m,visibility"

abbrev pub forecast_steps : ℕ
forecast_steps = 48

-- An ampersand before each pair but the first.
abbrev pub joined : List (Text × Text) → Text → Text
joined [] s = s
joined (_ ∷ _) s = b'&' ∷ s

unfoldable pub query : List (Text × Text) → Text
query [] = []
query ((key, value) ∷ rest) = key ++ (b'=' ∷ (query_escape value ++ joined rest (query rest)))

module _ (fl : Floats) where
  -- The keys are sorted.
  unfoldable pub url : Text → fl.F → fl.F → Text → Text
  url base_url latitude longitude timezone =
      base_url
      ++ (bytes "/v1/forecast?"
          ++ query (
              (bytes "forecast_minutely_15", show_ℕ forecast_steps)
              ∷ (bytes "latitude", fl.show latitude)
              ∷ (bytes "longitude", fl.show longitude)
              ∷ (bytes "minutely_15", variables)
              ∷ (bytes "timeformat", bytes "iso8601")
              ∷ (bytes "timezone", timezone)
              ∷ []))
