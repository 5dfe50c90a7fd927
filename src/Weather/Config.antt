-- ===== src/Weather/Config.antt =====
-- src/config/mod.rs: the weather part of the configuration, over the type of the floats.
use awtrix_controller.Prelude.{Bool}
use awtrix_controller.Prelude.Int.{ℤ}
use awtrix_controller.Prelude.Text.{Text}

pub record WeatherConfig (F : Type 0) : Type 0 where
  pub enabled : Bool
  pub poll_interval_minutes : ℤ
  pub overlay_horizon_minutes : ℤ
  pub notification_horizon_hours : ℤ
  pub notification_repeat_minutes : ℤ
  pub inactive_after_missing_polls : ℤ
  pub data_stale_ttl_minutes : ℤ
  pub notification_text_repeat : ℤ
  pub gust_warn_kmh : F
  pub gust_severe_kmh : F
  pub heavy_rain_mm_per_15_min : F
  pub fog_visibility_warn_m : F
  pub fog_visibility_severe_m : F
  pub frost_temp_c : F
  pub frost_dew_point_delta_c : F
  pub frost_warn_precip_window_h : F
  pub frost_warn_precip_mm : F
  pub notify_thunderstorm : Bool
  pub notify_freezing_precip : Bool
  pub notify_frost_risk : Bool
  pub notify_heavy_rain : Bool
  pub notify_strong_gusts : Bool
  pub notify_snow : Bool
  pub notify_fog : Bool
  pub rtttl : Text
