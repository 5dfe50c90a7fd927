-- ===== src/Run/Start.antt =====
-- src/run/mod.rs: from the arguments to the configuration, and how the components are started. The
-- argument parser, the file and the broker are parameters; what is logged is left out.
pub mod Early
use awtrix_controller.Prelude.{
  ℕ, ◌+◌, ◌∷◌, ◌&&◌, Bool, true, false, Option, none, some, List, [], unwrap_or, if◌then◌else◌, not,
  Result, ok, err, map_err, ◌>>=◌,
}
use awtrix_controller.Prelude.Int.{ℤ, pos, eqb_ℤ, leb_ℤ}
use awtrix_controller.Prelude.Text.{Text, bytes}
use awtrix_controller.Instants.{Instants, Floats}
use awtrix_controller.Config.Timezone.{Zones, load_time_zone}
use awtrix_controller.Config.Sections.{Config, ConfigError, LogFormat, text}
use awtrix_controller.Config.Validate.{load}
use awtrix_controller.Config.File.{FileConfig}
use awtrix_controller.Config.Defaults.{default_config_path}
use awtrix_controller.Config.Entry.{is_empty}
use awtrix_controller.Model.Payload.{Notification}
use awtrix_controller.Cli.{Cli, notification}
use awtrix_controller.Cli.Form.{Arg, single_dash_long_form}
use awtrix_controller.Logger.{LevelFilter, effective_level, effective_format}
use awtrix_controller.EnergySaving
use awtrix_controller.EnergySaving.{EnergySaving}
use awtrix_controller.Settings.{Builder, builder_new}
use awtrix_controller.Weather.Controller.{Self, with_fetch_function}
use awtrix_controller.Run.Loop.{Ended}

abbrev pub exit_config : ℕ
exit_config = 1

abbrev pub exit_component : ℕ
exit_component = 2

-- `SHUTDOWN_BUDGET` in milliseconds.
abbrev pub shutdown_budget : ℕ
shutdown_budget = 2000

-- `Exit`; `deadline` is an instant in milliseconds.
pub record Exit : Type 0 where
  pub code : ℕ
  pub deadline : Option ℕ

unfoldable pub early : ℕ → Exit
early code = record { code = code; deadline = none }

unfoldable pub non_empty : Option Text → Option Text
non_empty none = none
non_empty (some value) = if is_empty value then none else some value

-- The configuration's time zone, `none` when its name is unknown.
unfoldable pub time_zone : {F : Type 0} → (zones : Zones) → Config F → Option zones.Zone
time_zone zones config =
    if is_empty config.timezone
    then some zones.system
    else elim (load_time_zone zones config.timezone) [ ok zone ↦ some zone | err _ ↦ none ]

-- What the start of the components takes, and what the logger was started with.
pub record Prepared (F Zone : Type 0) : Type 0 where
  pub config : Config F
  pub zone : Zone
  pub weather_wmo : Option ℤ
  pub test_notification : Option Notification
  pub level : LevelFilter
  pub format : LogFormat

-- The environment that the arguments are read in: `options` and `try_parse_from` are clap's, whose error
-- tells whether it goes to stderr; `peek` and `load_file` read the configuration at a path.
pub record Setting (fl : Floats) (LoadError : Type 0) : Type 0 where
  pub options : List Arg
  pub try_parse_from : List (Option Text) → Result Bool Cli
  pub getenv : Text → Option Text
  pub peek : Text → Option LogFormat
  pub load_file : Text → Result LoadError (Config fl.F)

-- `version == Some(true)`.
abbrev pub is_version : Option Bool → Bool
is_version (some b) = b
is_version none = false

module _ (fl : Floats) (zones : Zones) (LoadError : Type 0) (set : Setting fl LoadError) where
  abbrev pub config_path : Cli → Text
  config_path cli =
      unwrap_or cli.config
        (unwrap_or (non_empty (set.getenv (bytes "AWTRIX_CONFIG"))) default_config_path)

  abbrev pub prepared : Cli → Config fl.F → zones.Zone → Prepared fl.F zones.Zone
  prepared cli config zone = record {
    config = config;
    zone = zone;
    weather_wmo = cli.weather_wmo;
    test_notification = notification cli.test_notification;
    level = effective_level cli.log_level (set.getenv (bytes "AWTRIX_LOG_LEVEL"));
    format = effective_format cli.log_format (unwrap_or (set.peek (config_path cli)) text);
  }

  abbrev pub in_zone :
      Cli → Config fl.F → Option zones.Zone → Result Exit (Prepared fl.F zones.Zone)
  in_zone cli config none = err (early exit_config)
  in_zone cli config (some zone) = ok (prepared cli config zone)

  abbrev pub configured : Cli → Result Exit (Prepared fl.F zones.Zone)
  configured cli = elim (set.load_file (config_path cli)) [
    | err _ ↦ err (early exit_config)
    | ok config ↦ in_zone cli config (time_zone zones config)
  ]

  abbrev pub parsed : Result Bool Cli → Result Exit (Prepared fl.F zones.Zone)
  parsed (err to_stderr) = err (early (if to_stderr then exit_config else 0))
  parsed (ok cli) = if is_version cli.version then err (early 0) else configured cli

  -- `run_with_options` up to the call of `start`: `err` is a return before it.
  unfoldable pub run_with_options : List (Option Text) → Result Exit (Prepared fl.F zones.Zone)
  run_with_options args = elim (single_dash_long_form set.options args) [
    | some _ ↦ err (early exit_config)
    | none ↦ parsed (set.try_parse_from args)
  ]
