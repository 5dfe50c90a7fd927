-- ===== src/Weather/Mapping.antt =====
-- src/weather/mapping/mod.rs: the overlay of a WMO code and the choice among those of a forecast.
pub mod Choice
use awtrix_controller.Prelude.{
  ℕ, ◌&&◌, Bool, true, false, Option, none, some, List, [], ◌∷◌, ltb, leb, filter, filter_map,
  unwrap_or, if◌then◌else◌,
}
use awtrix_controller.Prelude.Int.{ℤ, pos, saturating_mul}
use awtrix_controller.Instants.{Timestamp, Instants}
use awtrix_controller.Model.Enums.{
  OverlayEffect, clear, snow, rain, drizzle, storm, thunder, frost, other,
}
use awtrix_controller.Weather.Wmo
use awtrix_controller.Weather.Forecast.{ForecastPoint}

unfoldable pub wmo_to_overlay : ℤ → Option OverlayEffect
wmo_to_overlay code =
    if Wmo.is_drizzle code
    then some drizzle
    else if Wmo.is_freezing code
    then some frost
    else if Wmo.is_rain code
    then some rain
    else if Wmo.is_snow code
    then some snow
    else if Wmo.is_storm code
    then some storm
    else if Wmo.is_thunder code
    then some thunder
    else none

unfoldable pub priority : Option OverlayEffect → ℕ
priority none = 0
priority (some clear) = 0
priority (some (other _)) = 0
priority (some drizzle) = 1
priority (some rain) = 2
priority (some snow) = 3
priority (some storm) = 4
priority (some frost) = 5
priority (some thunder) = 6

-- The closure of the fold.
unfoldable pub stronger : Option OverlayEffect → OverlayEffect → Option OverlayEffect
stronger best candidate =
    if ltb (priority best) (priority (some candidate)) then some candidate else best

unfoldable pub strongest : Option OverlayEffect → List OverlayEffect → Option OverlayEffect
strongest best [] = best
strongest best (candidate ∷ cs) = strongest (stronger best candidate) cs

-- `weather_code.and_then(wmo_to_overlay)`.
abbrev pub overlay_of : {F : Type 0} → ForecastPoint F → Option OverlayEffect
overlay_of point = elim point.weather_code [ none ↦ none | some code ↦ wmo_to_overlay code ]

module _ (time : Instants) where
  unfoldable pub overlay_horizon : Timestamp → ℤ → Timestamp
  overlay_horizon now horizon_minutes =
      unwrap_or (time.saturating_add now (time.from_secs (saturating_mul horizon_minutes (pos 60))))
        now

  unfoldable pub select_overlay :
      {F : Type 0} → List (ForecastPoint F) → Timestamp → ℤ → Option OverlayEffect
  select_overlay points now horizon_minutes =
      let horizon = overlay_horizon now horizon_minutes in
      let ahead = filter (λ p. leb now p.time && ltb p.time horizon) points in
      strongest none (filter_map overlay_of ahead)
