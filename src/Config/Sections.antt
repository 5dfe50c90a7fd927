-- ===== src/Config/Sections.antt =====
-- src/config/mod.rs: the sections of a validated configuration, and why it could not be loaded.
use awtrix_controller.Prelude.{Bool, Option, List}
use awtrix_controller.Prelude.Int.{ℤ}
use awtrix_controller.Prelude.Text.{Text}
use awtrix_controller.EnergySaving.{EnergySavingConfig}
use awtrix_controller.Settings.{ThemeConfig}
use awtrix_controller.Weather.Config.{WeatherConfig}

pub record MqttConfig : Type 0 where
  pub port : ℤ
  pub ws_port : Option ℤ
  pub username : Text
  pub password : Text

pub record LocationConfig (F : Type 0) : Type 0 where
  pub latitude : F
  pub longitude : F

pub data Repeat : Type 0 where
  daily weekly monthly yearly : Repeat

pub record ScheduledNotificationConfig : Type 0 where
  pub name : Text
  pub message : Text
  pub repeat : Repeat
  pub date : Text
  pub day : ℤ
  pub weekdays : List Text
  pub time : Text
  pub enabled : Bool
  pub duration : ℤ
  pub icon : Text
  pub rainbow : Bool
  pub scroll_speed : ℤ
  pub wakeup : Bool
  pub rtttl : Text

pub data LogFormat : Type 0 where
  text json : LogFormat

pub record Config (F : Type 0) : Type 0 where
  pub mqtt : MqttConfig
  pub location : LocationConfig F
  pub timezone : Text
  pub energy_saving : EnergySavingConfig
  pub theme : ThemeConfig
  pub scheduled_notifications : List ScheduledNotificationConfig
  pub weather : WeatherConfig F
  pub log_format : LogFormat

-- `read` and `parse` have the error of the file system and of the YAML reader; the source of an
-- unknown time zone is its name.
pub data ConfigError (F IoError YamlError : Type 0) : Type 0 where
  read : Text → IoError → ConfigError F IoError YamlError
  parse : YamlError → ConfigError F IoError YamlError
  mqtt_username_required mqtt_password_required : ConfigError F IoError YamlError
  latitude_required longitude_required : ConfigError F IoError YamlError
  invalid_timezone : Text → Text → ConfigError F IoError YamlError
  invalid_hex_color : Text → Text → Text → ConfigError F IoError YamlError
  out_of_range : Text → F → Text → ConfigError F IoError YamlError
  invalid_positive_integer : Text → ℤ → ConfigError F IoError YamlError
  invalid_log_format : Text → ConfigError F IoError YamlError
