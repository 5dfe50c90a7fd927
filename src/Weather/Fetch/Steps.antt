-- ===== src/Weather/Fetch/Steps.antt =====
-- src/weather/fetch/mod.rs: what an answer that is accepted says of each step.
use awtrix_controller.Prelude.{
  ℕ, suc, zero, ◌<◌, ◌≡◌, refl, ap, inl, inr, ◌∷◌, not, Bool, false, Option, none, some, List, [],
  arith, ◌==◌, any, length, unwrap_or, Bool-cases, Result, ok, err, ok_or, >>=-eq-ok, ok-injective,
}
use mathlib.Core.Path.{subst}
use awtrix_controller.Prelude.Text.{Text}
use awtrix_controller.Instants.{Floats}
use awtrix_controller.Clock.{Date, Time, Calendar}
use awtrix_controller.Config.Timezone.{Zones, load_time_zone}
use awtrix_controller.Weather.Forecast.{ForecastPoint}
use awtrix_controller.Weather.Fetch.{
  RawMinutely, RawResponse, no_arrays, items, item, of_length, keep_if, differs, resolved,
  parse_time, zone_of, point_at, points_from, mismatched, parse_minutely, parse_raw,
}

-- `slice::get`.
abbrev pub get_elem? : {A : Type 0} → List A → ℕ → Option A
get_elem? [] i = none
get_elem? (x ∷ xs) zero = some x
get_elem? (x ∷ xs) (suc i) = get_elem? xs i

err≢ok : {E A : Type 0} (e : E) (a : A) → ◌≡◌ {A = Result E A} (err e) (ok a) → ⊥
err≢ok e a h = cc

ok_or-eq-ok : {E A : Type 0} (o : Option A) (e : E) (a : A) → ok_or o e ≡ ok a → o ≡ some a
ok_or-eq-ok none e a h = absurd (err≢ok e a h)
ok_or-eq-ok (some b) e a h = ap some (ok-injective b a h)

-- The six arrays that every step needs have as many values as there are times.
abbrev pub AreComplete : {F : Type 0} → RawMinutely F → Type 0
AreComplete raw =
    let count = length (items raw.times) in
    (0 < count)
    × (length (items raw.weather_code) ≡ count)
    × (length (items raw.precipitation) ≡ count)
    × (length (items raw.snowfall) ≡ count)
    × (length (items raw.temperature_2m) ≡ count)
    × (length (items raw.dew_point_2m) ≡ count)
    × (length (items raw.wind_gusts_10m) ≡ count)

complete :
    {F : Type 0} (raw : RawMinutely F)
    → length (items raw.times) == 0 ≡ false
    → any (differs (length (items raw.times))) (
        length (items raw.weather_code)
        ∷ length (items raw.precipitation)
        ∷ length (items raw.snowfall)
        ∷ length (items raw.temperature_2m)
        ∷ length (items raw.dew_point_2m)
        ∷ length (items raw.wind_gusts_10m)
        ∷ [])
      ≡ false
    → AreComplete raw
complete raw h k = ground arith

module _ (fl : Floats) (zones : Zones) (calendar : zones.Zone → Calendar)
    (strptime : Text → Option (Date × Time)) (RequestError JsonError JoinError : Type 0)
    (is_visibility_absent : fl.F → Bool) where
  -- A point is the step of its index: the time that is there resolves to its time, and each measurement
  -- is the array's, the visibility with the exceptions of `of_length` and of the marker.
  abbrev pub IsStep : RawMinutely fl.F → zones.Zone → ℕ → Option Text → ForecastPoint fl.F → Type 0
  IsStep raw zone index t p =
      (resolved fl zones calendar strptime RequestError JsonError JoinError is_visibility_absent
          zone (strptime (unwrap_or t []))
        ≡ some p.time)
      × (p.weather_code ≡ item (items raw.weather_code) index)
      × (p.precipitation ≡ item (items raw.precipitation) index)
      × (p.snowfall ≡ item (items raw.snowfall) index)
      × (p.temperature_2m ≡ item (items raw.temperature_2m) index)
      × (p.dew_point_2m ≡ item (items raw.dew_point_2m) index)
      × (p.wind_gusts_10m ≡ item (items raw.wind_gusts_10m) index)
      × (p.visibility
          ≡ keep_if (λ value. not (is_visibility_absent value))
              (item (of_length (length (items raw.times)) raw.visibility) index))

  -- The points are the steps, in their order.
  abbrev pub AreSteps :
      RawMinutely fl.F → zones.Zone → ℕ → List (Option Text) → List (ForecastPoint fl.F) → Type 0
  AreSteps raw zone index [] [] = Unit
  AreSteps raw zone index [] (p ∷ ps) = ⊥
  AreSteps raw zone index (t ∷ ts) [] = ⊥
  AreSteps raw zone index (t ∷ ts) (p ∷ ps) =
      IsStep raw zone index t p × AreSteps raw zone (suc index) ts ps

  points_from-AreSteps :
      (raw : RawMinutely fl.F) (zone : zones.Zone) (index : ℕ) (times : List (Option Text))
      (points : List (ForecastPoint fl.F))
      → points_from fl zones calendar strptime RequestError JsonError JoinError is_visibility_absent
          raw
          (length (items raw.times))
          zone
          index
          times
        ≡ ok points
      → AreSteps raw zone index times points
  unfolding points_from parse_time
  points_from-AreSteps raw zone index [] points h =
      subst (AreSteps raw zone index []) (ok-injective [] points h) tt
  points_from-AreSteps raw zone index (t ∷ times) points h =
      let (instant, e, h1) = >>=-eq-ok _ _ h in
      let (rest, e', h2) = >>=-eq-ok _ _ h1 in
      subst (AreSteps raw zone index (t ∷ times))
        (ok-injective
          (point_at fl zones calendar strptime RequestError JsonError JoinError is_visibility_absent
              raw (length (items raw.times)) index instant
            ∷ rest)
          points h2)
        (
          (ok_or-eq-ok _ _ instant e, refl, refl, refl, refl, refl, refl, refl),
          points_from-AreSteps raw zone (suc index) times rest e',
        )

  -- An answer that is accepted has at least one time and as many values in each array but that of the
  -- visibility, and one point for each time, in their order: a time that resolves in the zone (in UTC,
  -- if the zone is unknown), and the values of its index, a missing one missing. A visibility array of
  -- another length counts as missing values, and so does the marker for an absent visibility.
  pub parse_raw-AreSteps :
      (raw : RawResponse fl.F) (timezone : Text) (points : List (ForecastPoint fl.F))
      → parse_raw fl zones calendar strptime RequestError JsonError JoinError is_visibility_absent
          raw timezone
        ≡ ok points
      → let minutely = unwrap_or raw.minutely_15 no_arrays in
        AreComplete minutely
        × AreSteps minutely
            (zone_of fl zones calendar strptime RequestError JsonError JoinError
              is_visibility_absent
              (load_time_zone zones timezone))
            0
            (items minutely.times)
            points
  unfolding parse_raw parse_minutely
  parse_raw-AreSteps raw timezone points h =
      let minutely : RawMinutely fl.F = unwrap_or raw.minutely_15 no_arrays in
      let count = length (items minutely.times) in
      elim (Bool-cases (count == 0)) [
        | inl empty ↦ absurd (err≢ok _ points (rw (empty, parse_raw, parse_minutely) at h))
        | inr some_times ↦
            elim (Bool-cases (
              mismatched fl zones calendar strptime RequestError JsonError JoinError
                is_visibility_absent minutely count)) [
                  | inl bad ↦ absurd (
                      err≢ok _ points (rw bad at (rw (some_times, parse_raw, parse_minutely) at h)))
                  | inr good ↦ (
                    complete minutely some_times good,
                    points_from-AreSteps minutely _ 0 (items minutely.times) points
                        (rw good at (rw (some_times, parse_raw, parse_minutely) at h)),
                  )
                ]
      ]
