-- ===== src/Config/Defaults.antt =====
-- src/config/defaults.rs: what an absent setting stands for.
use awtrix_controller.Prelude.{ℕ}
use awtrix_controller.Prelude.Int.{ℤ, pos}
use awtrix_controller.Prelude.Text.{Text, bytes}

abbrev pub default_mqtt_port : ℤ
default_mqtt_port = pos 1883

abbrev pub default_config_path : Text
default_config_path = bytes "/etc/awtrix-controller/config.yaml"

abbrev pub default_energy_saving_start : Text
default_energy_saving_start = bytes "00:30"

abbrev pub default_energy_saving_end : Text
default_energy_saving_end = bytes "06:00"

abbrev pub default_scheduled_notification_duration : ℤ
default_scheduled_notification_duration = pos 60

abbrev pub default_scheduled_notification_icon : Text
default_scheduled_notification_icon = bytes "9597"

abbrev pub default_scheduled_notification_scroll_speed : ℤ
default_scheduled_notification_scroll_speed = pos 50

abbrev pub default_scheduled_notification_time : Text
default_scheduled_notification_time = bytes "00:00"

abbrev pub default_theme_day_accent : Text
default_theme_day_accent = bytes "#FF0000"

abbrev pub default_theme_day_content : Text
default_theme_day_content = bytes "#FFFFFF"

abbrev pub default_theme_night_accent : Text
default_theme_night_accent = bytes "#FF0000"

abbrev pub default_theme_night_content : Text
default_theme_night_content = bytes "#474747"

abbrev pub default_weather_poll_interval_minutes : ℤ
default_weather_poll_interval_minutes = pos 15

abbrev pub default_weather_overlay_horizon_minutes : ℤ
default_weather_overlay_horizon_minutes = pos 60

abbrev pub default_weather_notification_horizon_hours : ℤ
default_weather_notification_horizon_hours = pos 8

abbrev pub default_weather_notification_repeat_minutes : ℤ
default_weather_notification_repeat_minutes = pos 60

abbrev pub default_weather_inactive_after_missing_polls : ℤ
default_weather_inactive_after_missing_polls = pos 2

abbrev pub default_weather_data_stale_ttl_minutes : ℤ
default_weather_data_stale_ttl_minutes = pos 45

abbrev pub default_weather_notification_text_repeat : ℤ
default_weather_notification_text_repeat = pos 3

-- The thresholds are decimal literals: `(n, k)` is `n / 10 ^ k`.
abbrev pub Literal : Type 0
Literal = ℕ × ℕ

abbrev pub default_weather_gust_warn_kmh : Literal
default_weather_gust_warn_kmh = (450, 1)

abbrev pub default_weather_gust_severe_kmh : Literal
default_weather_gust_severe_kmh = (600, 1)

abbrev pub default_weather_heavy_rain_mm_per_15min : Literal
default_weather_heavy_rain_mm_per_15min = (50, 1)

abbrev pub default_weather_fog_visibility_warn_m : Literal
default_weather_fog_visibility_warn_m = (10000, 1)

abbrev pub default_weather_fog_visibility_severe_m : Literal
default_weather_fog_visibility_severe_m = (2000, 1)

abbrev pub default_weather_frost_temp_c : Literal
default_weather_frost_temp_c = (15, 1)

abbrev pub default_weather_frost_dew_point_delta_c : Literal
default_weather_frost_dew_point_delta_c = (10, 1)

abbrev pub default_weather_frost_warn_precip_window_h : Literal
default_weather_frost_warn_precip_window_h = (20, 1)

abbrev pub default_weather_frost_warn_precip_mm : Literal
default_weather_frost_warn_precip_mm = (2, 1)
