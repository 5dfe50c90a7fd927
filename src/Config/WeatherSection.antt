-- ===== src/Config/WeatherSection.antt =====
-- src/config/mod.rs: the weather section, with its defaults and the ranges of its settings.
pub mod Ranges
use awtrix_controller.Prelude.{
  ◌&&◌, ◌||◌, true, false, Option, none, some, unwrap_or, if◌then◌else◌, Result, ok, err, ◌>>=◌,
}
use awtrix_controller.Prelude.Int.{ℤ, pos, ltb_ℤ}
use awtrix_controller.Prelude.Text.{Text, bytes, same}
use awtrix_controller.Instants.{Floats}
use awtrix_controller.Weather.Config.{WeatherConfig}
use awtrix_controller.Config.Sections.{ConfigError, out_of_range, invalid_positive_integer}
use awtrix_controller.Config.Entry.{non_zero_or}
use awtrix_controller.Config.File.{FileWeather}
use awtrix_controller.Config.Defaults.{Literal}
use awtrix_controller.Config.Defaults

abbrev pub non_negative : Text
non_negative = bytes "a finite number >= 0"

abbrev pub finite : Text
finite = bytes "a finite number"

module _ (fl : Floats) (IoError YamlError : Type 0) where
  -- A given value is kept, also 0.
  unfoldable pub threshold :
      Option fl.F → Literal → Text → Text → Result (ConfigError fl.F IoError YamlError) fl.F
  threshold none (n, k) field expected = ok (fl.literal n k)
  threshold (some value) default field expected =
      if fl.is_finite value && (same expected finite || fl.le (fl.literal 0 1) value)
      then ok value
      else err (out_of_range field value expected)

  unfoldable pub positive_or_default :
      Option ℤ → ℤ → Text → Result (ConfigError fl.F IoError YamlError) ℤ
  positive_or_default value default field =
      let given = non_zero_or value default in
      if ltb_ℤ (pos 0) given then ok given else err (invalid_positive_integer field given)

  unfoldable pub weather :
      FileWeather fl.F → Result (ConfigError fl.F IoError YamlError) (WeatherConfig fl.F)
  weather file = do
    poll_interval_minutes ←
        positive_or_default file.poll_interval_minutes
          Defaults.default_weather_poll_interval_minutes (bytes "poll_interval_minutes")
    overlay_horizon_minutes ←
        positive_or_default file.overlay_horizon_minutes
          Defaults.default_weather_overlay_horizon_minutes (bytes "overlay_horizon_minutes")
    notification_horizon_hours ←
        positive_or_default file.notification_horizon_hours
          Defaults.default_weather_notification_horizon_hours (bytes "notification_horizon_hours")
    notification_repeat_minutes ←
        positive_or_default file.notification_repeat_minutes
          Defaults.default_weather_notification_repeat_minutes (bytes "notification_repeat_minutes")
    inactive_after_missing_polls ←
        positive_or_default file.inactive_after_missing_polls
          Defaults.default_weather_inactive_after_missing_polls
          (bytes "inactive_after_missing_polls")
    data_stale_ttl_minutes ←
        positive_or_default file.data_stale_ttl_minutes
          Defaults.default_weather_data_stale_ttl_minutes (bytes "data_stale_ttl_minutes")
    gust_warn_kmh ←
        threshold file.gust_warn_kmh Defaults.default_weather_gust_warn_kmh (bytes "gust_warn_kmh")
          non_negative
    gust_severe_kmh ←
        threshold file.gust_severe_kmh Defaults.default_weather_gust_severe_kmh
          (bytes "gust_severe_kmh") non_negative
    heavy_rain_mm_per_15_min ←
        threshold file.heavy_rain_mm_per_15_min Defaults.default_weather_heavy_rain_mm_per_15min
          (bytes "heavy_rain_mm_per_15min") non_negative
    fog_visibility_warn_m ←
        threshold file.fog_visibility_warn_m Defaults.default_weather_fog_visibility_warn_m
          (bytes "fog_visibility_warn_m") non_negative
    fog_visibility_severe_m ←
        threshold file.fog_visibility_severe_m Defaults.default_weather_fog_visibility_severe_m
          (bytes "fog_visibility_severe_m") non_negative
    frost_temp_c ←
        threshold file.frost_temp_c Defaults.default_weather_frost_temp_c (bytes "frost_temp_c")
          finite
    frost_dew_point_delta_c ←
        threshold file.frost_dew_point_delta_c Defaults.default_weather_frost_dew_point_delta_c
          (bytes "frost_dew_point_delta_c") non_negative
    frost_warn_precip_window_h ←
        threshold file.frost_warn_precip_window_h
          Defaults.default_weather_frost_warn_precip_window_h (bytes "frost_warn_precip_window_h")
          non_negative
    frost_warn_precip_mm ←
        threshold file.frost_warn_precip_mm Defaults.default_weather_frost_warn_precip_mm
          (bytes "frost_warn_precip_mm") non_negative
    ok (record {
      enabled = unwrap_or file.enabled false;
      poll_interval_minutes = poll_interval_minutes;
      overlay_horizon_minutes = overlay_horizon_minutes;
      notification_horizon_hours = notification_horizon_hours;
      notification_repeat_minutes = notification_repeat_minutes;
      inactive_after_missing_polls = inactive_after_missing_polls;
      data_stale_ttl_minutes = data_stale_ttl_minutes;
      notification_text_repeat =
          non_zero_or file.notification_text_repeat
            Defaults.default_weather_notification_text_repeat;
      gust_warn_kmh = gust_warn_kmh;
      gust_severe_kmh = gust_severe_kmh;
      heavy_rain_mm_per_15_min = heavy_rain_mm_per_15_min;
      fog_visibility_warn_m = fog_visibility_warn_m;
      fog_visibility_severe_m = fog_visibility_severe_m;
      frost_temp_c = frost_temp_c;
      frost_dew_point_delta_c = frost_dew_point_delta_c;
      frost_warn_precip_window_h = frost_warn_precip_window_h;
      frost_warn_precip_mm = frost_warn_precip_mm;
      notify_thunderstorm = unwrap_or file.notify_thunderstorm true;
      notify_freezing_precip = unwrap_or file.notify_freezing_precip true;
      notify_frost_risk = unwrap_or file.notify_frost_risk true;
      notify_heavy_rain = unwrap_or file.notify_heavy_rain true;
      notify_strong_gusts = unwrap_or file.notify_strong_gusts true;
      notify_snow = unwrap_or file.notify_snow true;
      notify_fog = unwrap_or file.notify_fog false;
      rtttl = file.rtttl;
    })
