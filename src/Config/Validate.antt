-- ===== src/Config/Validate.antt =====
-- src/config/mod.rs: reading, parsing and validating the configuration file. The file system and the
-- YAML reader are parameters. A setting is checked after those above it, so the first violation is
-- the one reported.
pub mod Accepted
pub mod Colors
use awtrix_controller.Prelude.{
  ℕ, ◌∷◌, ◌&&◌, ◌||◌, leb, not, Bool, true, false, Option, none, some, [], all, length, filter_map,
  ◌==◌, if◌then◌else◌, Result, ok, err, map_err, ok_or, ◌>>=◌, ◌>>◌, require,
}
use awtrix_controller.Prelude.Int.{ℤ, pos}
use awtrix_controller.Prelude.Text.{Text, bytes, same, is_ascii_digit}
use awtrix_controller.Instants.{Floats}
use awtrix_controller.EnergySaving.{EnergySavingConfig}
use awtrix_controller.Settings.{ThemeConfig, ThemeColors}
use awtrix_controller.Config.Timezone.{Zones, load_time_zone}
use awtrix_controller.Config.Defaults.{
  default_mqtt_port, default_energy_saving_start, default_energy_saving_end,
  default_theme_day_accent, default_theme_day_content, default_theme_night_accent,
  default_theme_night_content,
}
use awtrix_controller.Config.File.{
  FileConfig, FileMqtt, FileEnergySaving, FileTheme, FileThemeColors,
}
use awtrix_controller.Config.Sections.{
  Config, MqttConfig, LogFormat, text, json, ConfigError, mqtt_username_required,
  mqtt_password_required, latitude_required, longitude_required, invalid_timezone,
  invalid_hex_color, invalid_log_format,
}
use awtrix_controller.Config.Sections
use awtrix_controller.Config.Entry.{is_empty, non_zero_or, non_empty_or, scheduled_notification}
use awtrix_controller.Config.WeatherSection.{weather}

-- `u8::is_ascii_hexdigit`.
abbrev pub is_ascii_hexdigit : ℕ → Bool
is_ascii_hexdigit c = is_ascii_digit c || ((leb b'A' c && leb c b'F') || (leb b'a' c && leb c b'f'))

-- The first byte, and those after it.
abbrev pub is_hash_hex : Text → Bool
is_hash_hex [] = false
is_hash_hex (c ∷ rest) = c == b'#' && all is_ascii_hexdigit rest

unfoldable pub is_valid_hex_color : Text → Bool
is_valid_hex_color value = length value == 7 && is_hash_hex value

module _ (F IoError YamlError : Type 0) where
  abbrev Error : Type 0
  Error = ConfigError F IoError YamlError

  -- The closure `check`.
  unfoldable pub check_color :
      Text → Text → Text → Text → Result (ConfigError F IoError YamlError) Text
  check_color theme field value default =
      if is_empty value
      then ok default
      else if is_valid_hex_color value
      then ok value
      else err (invalid_hex_color theme field value)

  unfoldable pub theme_colors :
      FileThemeColors → Text → Text → Text → Result (ConfigError F IoError YamlError) ThemeColors
  theme_colors colors theme default_accent default_content = do
    calendar_accent ←
        check_color theme (bytes "calendar_accent") colors.calendar_accent default_accent
    content ← check_color theme (bytes "content") colors.content default_content
    ok (record { calendar_accent = calendar_accent; content = content })

  unfoldable pub theme_config : FileTheme → Result (ConfigError F IoError YamlError) ThemeConfig
  theme_config theme = do
    day ← theme_colors theme.day (bytes "day") default_theme_day_accent default_theme_day_content
    night ←
        theme_colors theme.night (bytes "night") default_theme_night_accent
          default_theme_night_content
    ok (record { day = day; night = night })

  unfoldable pub log_format : Text → Result (ConfigError F IoError YamlError) LogFormat
  log_format value =
      if is_empty value || same value (bytes "text")
      then ok text
      else if same value (bytes "json")
      then ok json
      else err (invalid_log_format value)

  -- The name is only looked up here; `run` loads the zone.
  unfoldable pub check_timezone : Zones → Text → Result (ConfigError F IoError YamlError) (Unit {0})
  check_timezone zones [] = ok tt
  check_timezone zones (c ∷ name) = elim (load_time_zone zones (c ∷ name)) [
    | ok _ ↦ ok tt
    | err source ↦ err (invalid_timezone (c ∷ name) source)
  ]

abbrev pub mqtt_config : FileMqtt → MqttConfig
mqtt_config file = record {
  port = non_zero_or file.port default_mqtt_port;
  ws_port = file.ws_port;
  username = file.username;
  password = file.password;
}

abbrev pub energy_saving_config : FileEnergySaving → EnergySavingConfig
energy_saving_config file = record {
  start = non_empty_or file.start default_energy_saving_start;
  end = non_empty_or file.end default_energy_saving_end;
}

module _ (fl : Floats) (zones : Zones) (IoError YamlError : Type 0) where
  unfoldable pub validate :
      FileConfig fl.F → Result (ConfigError fl.F IoError YamlError) (Config fl.F)
  validate file = do
    require (not (is_empty file.mqtt.username)) mqtt_username_required
    require (not (is_empty file.mqtt.password)) mqtt_password_required
    latitude ← ok_or file.location.latitude latitude_required
    longitude ← ok_or file.location.longitude longitude_required
    check_timezone fl.F IoError YamlError zones file.timezone
    theme ← theme_config fl.F IoError YamlError file.theme
    weather_config ← weather fl IoError YamlError file.weather
    format ← log_format fl.F IoError YamlError file.log_format
    ok (record {
      mqtt = mqtt_config file.mqtt;
      location = record { latitude = latitude; longitude = longitude };
      timezone = file.timezone;
      energy_saving = energy_saving_config file.energy_saving;
      theme = theme;
      scheduled_notifications = filter_map scheduled_notification file.scheduled_notifications;
      weather = weather_config;
      log_format = format;
    })

  -- `serde_yaml_ng::from_str`.
  module _ (from_str : Text → Result YamlError (FileConfig fl.F)) where
    unfoldable pub parse : Text → Result (ConfigError fl.F IoError YamlError) (Config fl.F)
    parse contents = do file ← map_err Sections.parse (from_str contents); validate file

    -- `fs::read_to_string`.
    unfoldable pub load :
        (Text → Result IoError Text)
        → Text
        → Result (ConfigError fl.F IoError YamlError) (Config fl.F)
    load read_to_string path = do
      contents ← map_err (Sections.read path) (read_to_string path)
      parse contents

module _ (F IoError YamlError : Type 0) where
  abbrev pub ok_format : Result (ConfigError F IoError YamlError) LogFormat → Option LogFormat
  ok_format (ok format) = some format
  ok_format (err _) = none

  -- `log_format_only` reads the one key of the file.
  unfoldable pub peek_log_format :
      (Text → Result YamlError Text) → (Text → Result IoError Text) → Text → Option LogFormat
  peek_log_format log_format_only read_to_string path = elim (read_to_string path) [
    | err _ ↦ none
    | ok contents ↦ elim (log_format_only contents) [
      | err _ ↦ none
      | ok value ↦ ok_format (log_format F IoError YamlError value)
    ]
  ]
