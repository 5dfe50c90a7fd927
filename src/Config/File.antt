-- ===== src/Config/File.antt =====
-- src/config/file.rs: the configuration file as it is decoded, every setting optional. A text or a
-- list that is absent is empty.
use awtrix_controller.Prelude.{Bool, Option, List}
use awtrix_controller.Prelude.Int.{ℤ}
use awtrix_controller.Prelude.Text.{Text}

pub record FileMqtt : Type 0 where
  pub port : Option ℤ
  pub ws_port : Option ℤ
  pub username : Text
  pub password : Text

pub record FileLocation (F : Type 0) : Type 0 where
  pub latitude : Option F
  pub longitude : Option F

pub record FileEnergySaving : Type 0 where
  pub start : Text
  pub end : Text

pub record FileThemeColors : Type 0 where
  pub calendar_accent : Text
  pub content : Text

pub record FileScheduledNotification : Type 0 where
  pub name : Text
  pub message : Text
  pub repeat : Text
  pub date : Text
  pub day : Option ℤ
  pub weekdays : List Text
  pub time : Text
  pub enabled : Option Bool
  pub duration : Option ℤ
  pub icon : Text
  pub rainbow : Option Bool
  pub scroll_speed : Option ℤ
  pub wakeup : Option Bool
  pub rtttl : Text

pub record FileWeather (F : Type 0) : Type 0 where
  pub enabled : Option Bool
  pub poll_interval_minutes : Option ℤ
  pub overlay_horizon_minutes : Option ℤ
  pub notification_horizon_hours : Option ℤ
  pub notification_repeat_minutes : Option ℤ
  pub inactive_after_missing_polls : Option ℤ
  pub data_stale_ttl_minutes : Option ℤ
  pub notification_text_repeat : Option ℤ
  pub gust_warn_kmh : Option F
  pub gust_severe_kmh : Option F
  pub heavy_rain_mm_per_15_min : Option F
  pub fog_visibility_warn_m : Option F
  pub fog_visibility_severe_m : Option F
  pub frost_temp_c : Option F
  pub frost_dew_point_delta_c : Option F
  pub frost_warn_precip_window_h : Option F
  pub frost_warn_precip_mm : Option F
  pub notify_thunderstorm : Option Bool
  pub notify_freezing_precip : Option Bool
  pub notify_frost_risk : Option Bool
  pub notify_heavy_rain : Option Bool
  pub notify_strong_gusts : Option Bool
  pub notify_snow : Option Bool
  pub notify_fog : Option Bool
  pub rtttl : Text

pub record FileTheme : Type 0 where
  pub day : FileThemeColors
  pub night : FileThemeColors

pub record FileConfig (F : Type 0) : Type 0 where
  pub mqtt : FileMqtt
  pub location : FileLocation F
  pub timezone : Text
  pub energy_saving : FileEnergySaving
  pub theme : FileTheme
  pub scheduled_notifications : List FileScheduledNotification
  pub weather : FileWeather F
  pub log_format : Text
