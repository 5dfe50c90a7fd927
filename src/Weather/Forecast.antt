-- ===== src/Weather/Forecast.antt =====
-- src/weather/fetch/mod.rs: one step of the forecast, over the type of the floats.
use awtrix_controller.Prelude.{Option}
use awtrix_controller.Prelude.Int.{ℤ}
use awtrix_controller.Instants.{Timestamp}

pub record ForecastPoint (F : Type 0) : Type 0 where
  pub time : Timestamp
  pub weather_code : Option ℤ
  pub precipitation : Option F
  pub snowfall : Option F
  pub temperature_2m : Option F
  pub dew_point_2m : Option F
  pub wind_gusts_10m : Option F
  pub visibility : Option F
