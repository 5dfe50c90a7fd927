-- ===== src/Config/View.antt =====
-- src/config/mod.rs: the snapshot of the configuration that is logged at startup.
use awtrix_controller.Prelude.{ℕ, Bool, length}
use awtrix_controller.Prelude.Int.{ℤ}
use awtrix_controller.Prelude.Text.{Text}
use awtrix_controller.Config.Sections.{Config}

pub record ConfigDebugView (F : Type 0) : Type 0 where
  pub mqtt_port : ℤ
  pub mqtt_username : Text
  pub latitude : F
  pub longitude : F
  pub timezone : Text
  pub energy_saving_start : Text
  pub energy_saving_end : Text
  pub theme_day_accent : Text
  pub theme_day_content : Text
  pub theme_night_accent : Text
  pub theme_night_content : Text
  pub scheduled_notifications_count : ℕ
  pub weather_enabled : Bool
  pub weather_poll_interval_minutes : ℤ
  pub weather_overlay_horizon_minutes : ℤ
  pub weather_notification_horizon_hours : ℤ
  pub weather_notification_repeat_minutes : ℤ
  pub weather_inactive_after_missing_polls : ℤ
  pub weather_notification_text_repeat : ℤ
  pub weather_gust_warn_kmh : F
  pub weather_gust_severe_kmh : F
  pub weather_heavy_rain_mm_per_15_min : F
  pub weather_fog_visibility_warn_m : F
  pub weather_fog_visibility_severe_m : F
  pub weather_frost_temp_c : F
  pub weather_frost_dew_point_delta_c : F
  pub weather_frost_warn_precip_window_h : F
  pub weather_frost_warn_precip_mm : F
  pub weather_notify_thunderstorm : Bool
  pub weather_notify_freezing_precip : Bool
  pub weather_notify_frost_risk : Bool
  pub weather_notify_heavy_rain : Bool
  pub weather_notify_strong_gusts : Bool
  pub weather_notify_snow : Bool
  pub weather_notify_fog : Bool

unfoldable pub debug_view : {F : Type 0} → Config F → ConfigDebugView F
debug_view c = record {
  mqtt_port = c.mqtt.port;
  mqtt_username = c.mqtt.username;
  latitude = c.location.latitude;
  longitude = c.location.longitude;
  timezone = c.timezone;
  energy_saving_start = c.energy_saving.start;
  energy_saving_end = c.energy_saving.end;
  theme_day_accent = c.theme.day.calendar_accent;
  theme_day_content = c.theme.day.content;
  theme_night_accent = c.theme.night.calendar_accent;
  theme_night_content = c.theme.night.content;
  scheduled_notifications_count = length c.scheduled_notifications;
  weather_enabled = c.weather.enabled;
  weather_poll_interval_minutes = c.weather.poll_interval_minutes;
  weather_overlay_horizon_minutes = c.weather.overlay_horizon_minutes;
  weather_notification_horizon_hours = c.weather.notification_horizon_hours;
  weather_notification_repeat_minutes = c.weather.notification_repeat_minutes;
  weather_inactive_after_missing_polls = c.weather.inactive_after_missing_polls;
  weather_notification_text_repeat = c.weather.notification_text_repeat;
  weather_gust_warn_kmh = c.weather.gust_warn_kmh;
  weather_gust_severe_kmh = c.weather.gust_severe_kmh;
  weather_heavy_rain_mm_per_15_min = c.weather.heavy_rain_mm_per_15_min;
  weather_fog_visibility_warn_m = c.weather.fog_visibility_warn_m;
  weather_fog_visibility_severe_m = c.weather.fog_visibility_severe_m;
  weather_frost_temp_c = c.weather.frost_temp_c;
  weather_frost_dew_point_delta_c = c.weather.frost_dew_point_delta_c;
  weather_frost_warn_precip_window_h = c.weather.frost_warn_precip_window_h;
  weather_frost_warn_precip_mm = c.weather.frost_warn_precip_mm;
  weather_notify_thunderstorm = c.weather.notify_thunderstorm;
  weather_notify_freezing_precip = c.weather.notify_freezing_precip;
  weather_notify_frost_risk = c.weather.notify_frost_risk;
  weather_notify_heavy_rain = c.weather.notify_heavy_rain;
  weather_notify_strong_gusts = c.weather.notify_strong_gusts;
  weather_notify_snow = c.weather.notify_snow;
  weather_notify_fog = c.weather.notify_fog;
}
