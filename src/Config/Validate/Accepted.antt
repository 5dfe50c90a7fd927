-- ===== src/Config/Validate/Accepted.antt =====
-- src/config/mod.rs: what holds of a configuration that is accepted.
use awtrix_controller.Prelude.{
  ◌≡◌, ◌||◌, refl, ap, ◌⊎◌, inl, inr, ◌∷◌, not, Bool, true, false, Option, none, some, [], arith,
  Bool-cases, Result, ok, err, ok_or, map_err, require, require-eq-ok, >>=-eq-ok, ok-injective,
}
use mathlib.Core.Path.{subst}
use awtrix_controller.Prelude.Text.{Text, bytes, same, eq_of_same}
use awtrix_controller.Instants.{Floats}
use awtrix_controller.Config.Timezone.{Zones, load_time_zone}
use awtrix_controller.Config.Defaults.{
  default_mqtt_port, default_energy_saving_start, default_energy_saving_end,
  default_theme_day_accent, default_theme_day_content, default_theme_night_accent,
  default_theme_night_content,
}
use awtrix_controller.Config.File.{FileConfig}
use awtrix_controller.Config.Sections
use awtrix_controller.Config.Sections.{
  Config, ConfigError, LogFormat, text, json, ScheduledNotificationConfig, invalid_timezone,
  mqtt_username_required, mqtt_password_required, latitude_required, longitude_required,
}
use awtrix_controller.Config.Entry.{is_empty, is_ok}
use awtrix_controller.Config.Entry.Given.{IsText, non_empty_or_cases, AreKept, filter_map-AreKept}
use awtrix_controller.Config.WeatherSection.{weather}
use awtrix_controller.Config.WeatherSection.Ranges.{
  IsNonZeroSetting, non_zero_or_cases, IsWeatherValid, weather-IsWeatherValid,
}
use awtrix_controller.Config.Validate.Colors.{AreColors, theme_config-AreColors}
use awtrix_controller.Config.Validate.{
  theme_config, check_timezone, log_format, load, parse, load, parse, validate,
}

err≢ok : {E A : Type 0} (e : E) (a : A) → ◌≡◌ {A = Result E A} (err e) (ok a) → ⊥
err≢ok e a h = cc

map_err-eq-ok :
    {E G A : Type 0} (f : E → G) (r : Result E A) (a : A) → map_err f r ≡ ok a → r ≡ ok a
map_err-eq-ok f (ok b) a h = ap ok (ok-injective b a h)
map_err-eq-ok f (err e) a h = absurd (err≢ok (f e) a h)

not-true : (b : Bool) → not b ≡ true → b ≡ false
not-true b h = ground arith

-- `text`, which is the default, or `json`.
abbrev pub IsLogFormat : Text → LogFormat → Type 0
IsLogFormat value text = (value ≡ []) ⊎ (value ≡ bytes "text")
IsLogFormat value json = value ≡ bytes "json"

text_named :
    (value : Text)
    → (is_empty value || same value (bytes "text")) ≡ true
    → IsLogFormat value Sections.text
text_named [] h = inl refl
text_named (c ∷ s) h = inr (eq_of_same (c ∷ s) (bytes "text") h)

module _ (fl : Floats) (zones : Zones) (IoError YamlError : Type 0) where
  ok_or-eq-ok :
      (o : Option fl.F) (e : ConfigError fl.F IoError YamlError) (a : fl.F)
      → ok_or o e ≡ ok a
      → o ≡ some a
  ok_or-eq-ok none e a h = absurd (err≢ok e a h)
  ok_or-eq-ok (some b) e a h = ap some (ok-injective b a h)

  abbrev zone_result :
      Text → Result Text zones.Zone → Result (ConfigError fl.F IoError YamlError) (Unit {0})
  zone_result name r = elim r [ ok _ ↦ ok tt | err source ↦ err (invalid_timezone name source) ]

  check_timezone-known :
      (name : Text) (u : Unit {0})
      → check_timezone fl.F IoError YamlError zones name ≡ ok u
      → (is_empty name ≡ true) ⊎ (is_ok (load_time_zone zones name) ≡ true)
  unfolding check_timezone
  check_timezone-known [] u h = inl refl
  check_timezone-known (x ∷ s) u h = inr (known (load_time_zone zones (x ∷ s)) refl h)
    where
      known :
          (r : Result Text zones.Zone)
          → load_time_zone zones (x ∷ s) ≡ r
          → zone_result (x ∷ s) r ≡ ok u
          → is_ok r ≡ true
      known (ok _) e h' = refl
      known (err source) e h' = absurd (err≢ok _ u h')

  log_format-named :
      (value : Text) (f : LogFormat)
      → log_format fl.F IoError YamlError value ≡ ok f
      → IsLogFormat value f
  unfolding log_format
  log_format-named value f h = elim (Bool-cases (is_empty value || same value (bytes "text"))) [
    | inl t ↦
        subst (IsLogFormat value) (ok-injective Sections.text f (rw (t, log_format) at h))
          (text_named value t)
    | inr n ↦ elim (Bool-cases (same value (bytes "json"))) [
      | inl j ↦
          subst (IsLogFormat value)
            (ok-injective Sections.json f (rw j at (rw (n, log_format) at h)))
            (eq_of_same value (bytes "json") j)
      | inr m ↦ absurd (err≢ok _ f (rw m at (rw (n, log_format) at h)))
    ]
  ]

  -- Each setting is what the file gives, or its default where it gives none, and valid.
  pub record IsConfigValid (file : FileConfig fl.F) (c : Config fl.F) : Type 0 where
    pub username : (file.mqtt.username ≡ c.mqtt.username) × (is_empty c.mqtt.username ≡ false)
    pub password : (file.mqtt.password ≡ c.mqtt.password) × (is_empty c.mqtt.password ≡ false)
    pub port : IsNonZeroSetting file.mqtt.port default_mqtt_port c.mqtt.port
    pub ws_port : c.mqtt.ws_port ≡ file.mqtt.ws_port
    pub latitude : file.location.latitude ≡ some c.location.latitude
    pub longitude : file.location.longitude ≡ some c.location.longitude
    pub timezone_given : c.timezone ≡ file.timezone
    pub timezone : (is_empty c.timezone ≡ true) ⊎ (is_ok (load_time_zone zones c.timezone) ≡ true)
    pub start : IsText file.energy_saving.start default_energy_saving_start c.energy_saving.start
    pub end : IsText file.energy_saving.end default_energy_saving_end c.energy_saving.end
    pub day :
        AreColors file.theme.day default_theme_day_accent default_theme_day_content c.theme.day
    pub night :
        AreColors file.theme.night default_theme_night_accent default_theme_night_content
          c.theme.night
    pub notifications : AreKept file.scheduled_notifications c.scheduled_notifications
    pub weather_section : IsWeatherValid fl IoError YamlError file.weather c.weather
    pub log_format : IsLogFormat file.log_format c.log_format

  validate-IsConfigValid :
      (file : FileConfig fl.F) (c : Config fl.F)
      → validate fl zones IoError YamlError file ≡ ok c
      → IsConfigValid file c
  unfolding validate
  validate-IsConfigValid file c h0 =
      let (u1, user, h1) =
        >>=-eq-ok (require (not (is_empty file.mqtt.username)) mqtt_username_required) _ h0 in
      let (u2, pass, h2) =
        >>=-eq-ok (require (not (is_empty file.mqtt.password)) mqtt_password_required) _ h1 in
      let (latitude, lat, h3) = >>=-eq-ok (ok_or file.location.latitude latitude_required) _ h2 in
      let (longitude, long, h4) =
        >>=-eq-ok (ok_or file.location.longitude longitude_required) _ h3 in
      let (u, zone, h5) =
        >>=-eq-ok (check_timezone fl.F IoError YamlError zones file.timezone) _ h4 in
      let (theme, colors, h6) = >>=-eq-ok (theme_config fl.F IoError YamlError file.theme) _ h5 in
      let (w, section, h7) = >>=-eq-ok (weather fl IoError YamlError file.weather) _ h6 in
      let (format, named, h8) =
        >>=-eq-ok (log_format fl.F IoError YamlError file.log_format) _ h7 in
      let both = theme_config-AreColors fl IoError YamlError file.theme theme colors in
      subst (IsConfigValid file) (ok-injective _ c h8) (record {
        username = (refl, not-true _ (require-eq-ok _ mqtt_username_required user));
        password = (refl, not-true _ (require-eq-ok _ mqtt_password_required pass));
        port = non_zero_or_cases file.mqtt.port default_mqtt_port;
        ws_port = refl;
        latitude = ok_or-eq-ok _ latitude_required latitude lat;
        longitude = ok_or-eq-ok _ longitude_required longitude long;
        timezone_given = refl;
        timezone = check_timezone-known file.timezone u zone;
        start = non_empty_or_cases file.energy_saving.start _;
        end = non_empty_or_cases file.energy_saving.end _;
        day = both.0;
        night = both.1;
        notifications = filter_map-AreKept file.scheduled_notifications;
        weather_section = weather-IsWeatherValid fl IoError YamlError file.weather w section;
        log_format = log_format-named file.log_format format named;
      })

  -- A file that loads is read and parsed, and what it says is accepted. The MQTT user and password are
  -- the file's and not empty, the coordinates are given, and the time zone is the file's and is empty or
  -- loads. The port, the two times of energy saving, the four colours, the log format and every setting
  -- of the weather section are the file's, or their defaults where it gives none (for an integer also
  -- where it gives 0); the WebSocket port and the weather melody are the file's as they are. Moreover
  -- each colour is `#` and six hexadecimal digits, the intervals and horizons of the weather section are
  -- positive, and its thresholds that the file gives are finite, and not negative but for the frost
  -- temperature. The scheduled notifications are those of the file in their order, with what it gives or
  -- the defaults, and each has a time and what its repetition needs; the ones left out are exactly those
  -- of which no such configuration is valid.
  pub load-IsConfigValid :
      (from_str : Text → Result YamlError (FileConfig fl.F))
      (read_to_string : Text → Result IoError Text) (path : Text) (c : Config fl.F)
      → load fl zones IoError YamlError from_str read_to_string path ≡ ok c
      → (contents : Text) × (file : FileConfig fl.F) × (read_to_string path ≡ ok contents)
        × (from_str contents ≡ ok file)
        × IsConfigValid file c
  unfolding load parse
  load-IsConfigValid from_str read_to_string path c h =
      let (contents, e, h1) = >>=-eq-ok (map_err (Sections.read path) (read_to_string path)) _ h in
      let (file, e', h2) = >>=-eq-ok (map_err Sections.parse (from_str contents)) _ h1 in
      (
        contents,
        file,
        map_err-eq-ok _ (read_to_string path) contents e,
        map_err-eq-ok _ (from_str contents) file e',
        validate-IsConfigValid file c h2,
      )
