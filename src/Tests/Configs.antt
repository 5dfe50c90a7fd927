-- ===== src/Tests/Configs.antt =====
-- Runs of the configuration's validation and of what is scheduled from it.
use awtrix_controller.Prelude.{ℕ, ◌≡◌, refl, ◌∷◌, true, false, some, none, [], Result, ok}
use awtrix_controller.Prelude.Int.{pos}
use awtrix_controller.Prelude.Text.{Text, bytes}
use awtrix_controller.Prelude.Text
use awtrix_controller.Config.File.{
  FileConfig, FileThemeColors, FileWeather, FileScheduledNotification,
}
use awtrix_controller.Config.Sections
use awtrix_controller.Config.Sections.{Config, ConfigError, Repeat, ScheduledNotificationConfig}
use awtrix_controller.Config.TimeOfDay
use awtrix_controller.Prelude.Decimal.{value_from}
use awtrix_controller.Config.Entry
use awtrix_controller.Config.Entry.{is_weekday}
use awtrix_controller.Config.WeatherSection
use awtrix_controller.Config.Validate
use awtrix_controller.Config.Validate.{load, is_valid_hex_color}
use awtrix_controller.Config.Validate.Accepted.{IsConfigValid, load-IsConfigValid}
use awtrix_controller.Notification.Jobs.{start}
use awtrix_controller.Notification.Jobs.Planned.{ArePlanned, load-ArePlanned}
use awtrix_controller.Weather.Config.{WeatherConfig}
use awtrix_controller.Tests.Samples.{hundredths, zones}
use awtrix_controller.Tests.Calendars.{at, utc, even_months}

-- A birthday and a reminder on two weekdays; the third entry has no such day.
abbrev entry : Text → Text → FileScheduledNotification
entry name repeat = record {
  name = name;
  message = [];
  repeat = repeat;
  date = bytes "02-29";
  day = some (pos 32);
  weekdays = bytes "monday" ∷ bytes "friday" ∷ [];
  time = bytes "7:30";
  enabled = none;
  duration = some (pos 0);
  icon = [];
  rainbow = none;
  scroll_speed = none;
  wakeup = none;
  rtttl = [];
}

-- A frost threshold of 0 is kept.
abbrev file_weather : FileWeather ℕ
file_weather = record {
  enabled = some true;
  poll_interval_minutes = some (pos 0);
  overlay_horizon_minutes = none;
  notification_horizon_hours = some (pos 12);
  notification_repeat_minutes = none;
  inactive_after_missing_polls = none;
  data_stale_ttl_minutes = none;
  notification_text_repeat = none;
  gust_warn_kmh = none;
  gust_severe_kmh = none;
  heavy_rain_mm_per_15_min = none;
  fog_visibility_warn_m = none;
  fog_visibility_severe_m = none;
  frost_temp_c = some 0;
  frost_dew_point_delta_c = none;
  frost_warn_precip_window_h = none;
  frost_warn_precip_mm = none;
  notify_thunderstorm = none;
  notify_freezing_precip = none;
  notify_frost_risk = none;
  notify_heavy_rain = none;
  notify_strong_gusts = none;
  notify_snow = none;
  notify_fog = none;
  rtttl = [];
}

abbrev no_colors : FileThemeColors
no_colors = record { calendar_accent = []; content = bytes "#0a0B0c" }

abbrev pub file : FileConfig ℕ
file = record {
  mqtt = record {
    port = none;
    ws_port = some (pos 8083);
    username = bytes "user";
    password = bytes "secret";
  };
  location = record { latitude = some 4800; longitude = some 1100 };
  timezone = [];
  energy_saving = record { start = []; end = bytes "05:00" };
  theme = record { day = no_colors; night = no_colors };
  scheduled_notifications =
      entry (bytes "Ada") (bytes "yearly")
      ∷ entry (bytes "bins") (bytes "weekly")
      ∷ entry (bytes "rent") (bytes "monthly")
      ∷ [];
  weather = file_weather;
  log_format = bytes "json";
}

abbrev pub from_str : Text → Result (Unit {0}) (FileConfig ℕ)
from_str _ = ok file

abbrev pub read_to_string : Text → Result (Unit {0}) Text
read_to_string _ = ok (bytes "mqtt: …")

abbrev kept : Text → Repeat → ScheduledNotificationConfig
kept name repeat = record {
  name = name;
  message = [];
  repeat = repeat;
  date = bytes "02-29";
  day = pos 32;
  weekdays = bytes "monday" ∷ bytes "friday" ∷ [];
  time = bytes "7:30";
  enabled = true;
  duration = pos 60;
  icon = bytes "9597";
  rainbow = false;
  scroll_speed = pos 50;
  wakeup = true;
  rtttl = [];
}

abbrev section : WeatherConfig ℕ
section = record {
  enabled = true;
  poll_interval_minutes = pos 15;
  overlay_horizon_minutes = pos 60;
  notification_horizon_hours = pos 12;
  notification_repeat_minutes = pos 60;
  inactive_after_missing_polls = pos 2;
  data_stale_ttl_minutes = pos 45;
  notification_text_repeat = pos 3;
  gust_warn_kmh = 4500;
  gust_severe_kmh = 6000;
  heavy_rain_mm_per_15_min = 500;
  fog_visibility_warn_m = 100000;
  fog_visibility_severe_m = 20000;
  frost_temp_c = 0;
  frost_dew_point_delta_c = 100;
  frost_warn_precip_window_h = 200;
  frost_warn_precip_mm = 20;
  notify_thunderstorm = true;
  notify_freezing_precip = true;
  notify_frost_risk = true;
  notify_heavy_rain = true;
  notify_strong_gusts = true;
  notify_snow = true;
  notify_fog = false;
  rtttl = [];
}

abbrev pub config : Config ℕ
config = record {
  mqtt = record {
    port = pos 1883;
    ws_port = some (pos 8083);
    username = bytes "user";
    password = bytes "secret";
  };
  location = record { latitude = 4800; longitude = 1100 };
  timezone = [];
  energy_saving = record { start = bytes "00:30"; end = bytes "05:00" };
  theme = record {
    day = record { calendar_accent = bytes "#FF0000"; content = bytes "#0a0B0c" };
    night = record { calendar_accent = bytes "#FF0000"; content = bytes "#0a0B0c" };
  };
  scheduled_notifications =
      kept (bytes "Ada") Repeat.yearly ∷ kept (bytes "bins") Repeat.weekly ∷ [];
  weather = section;
  log_format = Sections.json;
}

pub loads :
    load hundredths zones (Unit {0}) (Unit {0}) from_str read_to_string (bytes "config.yaml")
    ≡ ok config
unfolding load Validate.parse Validate.validate Validate.check_color Validate.theme_colors
    Validate.theme_config Validate.log_format Validate.check_timezone is_valid_hex_color
    Entry.scheduled_notification Entry.completed Entry.repeat_of Entry.non_zero_or
    Entry.non_empty_or WeatherSection.weather WeatherSection.threshold
    WeatherSection.positive_or_default TimeOfDay.time_from_str TimeOfDay.time_of_parts
    TimeOfDay.split_once TimeOfDay.parse_u8 TimeOfDay.new TimeOfDay.date_from_str
    TimeOfDay.date_of_parts TimeOfDay.get value_from Text.same
loads = refl

load-IsConfigValid_example :
    (contents : Text) × (f : FileConfig ℕ) × (read_to_string (bytes "config.yaml") ≡ ok contents)
    × (from_str contents ≡ ok f)
    × IsConfigValid hundredths zones (Unit {0}) (Unit {0}) f config
load-IsConfigValid_example =
    load-IsConfigValid hundredths zones (Unit {0}) (Unit {0}) from_str read_to_string
      (bytes "config.yaml") config loads

-- The birthday, and the reminder on each of its weekdays.
load-ArePlanned_example :
    ArePlanned utc even_months 0
      (at 10 720)
      config.scheduled_notifications
      (start (λ s. s) utc even_months 0 (at 10 720) config.scheduled_notifications)
load-ArePlanned_example =
    load-ArePlanned hundredths zones (Unit {0}) (Unit {0}) from_str read_to_string
      (bytes "config.yaml") config (λ s. s) utc even_months 0 (at 10 720) loads (λ name h. refl)
