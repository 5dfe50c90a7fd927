-- ===== src/Tests/Starts.antt =====
-- Runs of the wiring: the arguments, and the exit.
use awtrix_controller.Prelude.{
  ℕ, ◌≡◌, refl, ◌∷◌, true, false, Option, none, some, List, [], Result, ok, err,
}
use awtrix_controller.Prelude.Text.{Text, bytes}
use awtrix_controller.Prelude.Text
use awtrix_controller.State.{poisoned}
use awtrix_controller.ClientState
use awtrix_controller.Config.Sections
use awtrix_controller.Config.Sections.{Config, ConfigError}
use awtrix_controller.Config.Validate.{load}
use awtrix_controller.Broker.Server.{BrokerConfig, BrokerError}
use awtrix_controller.Cli.{Cli}
use awtrix_controller.Cli.Given.{no_args}
use awtrix_controller.Cli.Form.{search_form, verdict, name_of, cluster_takes_next}
use awtrix_controller.Logger.{LevelFilter}
use awtrix_controller.Run.Loop.{connected, stop_requested, queued}
use awtrix_controller.Run.Loop.Exits.{fails, after}
use awtrix_controller.Run.Start.{Setting, Prepared, Exit, early, run_with_options}
use awtrix_controller.Run.Start.Early.{run_with_options-loaded}
use awtrix_controller.Run.Launch.{start}
use awtrix_controller.Run.Launch.Codes.{IsExit, components, start-IsExit}
use awtrix_controller.Tests.Samples.{clock, hundredths, zones}
use awtrix_controller.Tests.Configs.{config, loads, from_str, read_to_string}
use awtrix_controller.Tests.Runs.{
  settings_json, notification_json, broker_publish, moment, happenings,
}

abbrev LoadError : Type 0
LoadError = ConfigError ℕ (Unit {0}) (Unit {0})

abbrev cli : Cli
cli = record {
  config = some (bytes "config.yaml");
  log_level = none;
  log_format = none;
  version = none;
  weather_wmo = none;
  test_notification = no_args;
}

-- The one option is the path of the configuration.
abbrev setting : Setting hundredths LoadError
setting = record {
  options =
      record {
        long = some (bytes "config");
        short = some b'c';
        require_equals = false;
        min_values = 1;
      }
      ∷ [];
  try_parse_from = λ _. ok cli;
  getenv = λ _. none;
  peek = λ _. none;
  load_file = load hundredths zones (Unit {0}) (Unit {0}) from_str read_to_string;
}

abbrev args : List (Option Text)
args = some (bytes "-c") ∷ some (bytes "config.yaml") ∷ []

-- The long form with one dash.
abbrev wrong_args : List (Option Text)
wrong_args = some (bytes "-config") ∷ some (bytes "config.yaml") ∷ []

no_form : search_form setting.options false args ≡ none
unfolding search_form verdict name_of cluster_takes_next Text.same
no_form = refl

run_with_options-loaded_example :
    (p : Prepared ℕ (Unit {0})) × (run_with_options hundredths zones LoadError setting args ≡ ok p)
    × (p.config ≡ config)
run_with_options-loaded_example =
    run_with_options-loaded hundredths zones (Unit {0}) (Unit {0}) from_str read_to_string setting
      (λ path. refl) args cli config no_form refl refl loads

wrong_form : run_with_options hundredths zones LoadError setting wrong_args ≡ err (early 1)
unfolding run_with_options search_form verdict name_of cluster_takes_next Text.same
wrong_form = refl

-- The prepared run of that configuration.
abbrev prepared_run : Prepared ℕ (Unit {0})
prepared_run = record {
  config = config;
  zone = tt;
  weather_wmo = none;
  test_notification = none;
  level = LevelFilter.info;
  format = Sections.json;
}

abbrev broker_start : BrokerConfig → Result (BrokerError (Unit {0})) (Unit {0})
broker_start _ = ok tt

start-IsExit_example :
    (x : Exit) × (start
        (Unit {0})
        (Unit {0})
        (Unit {0})
        settings_json
        notification_json
        broker_publish
        clock
        hundredths
        zones
        true
        broker_start
        ClientState.new
        prepared_run
        happenings
        1000
      ≡ some x)
    × IsExit
        (Unit {0})
        (Unit {0})
        (Unit {0})
        settings_json
        notification_json
        broker_publish
        clock
        hundredths
        zones
        true
        broker_start
        prepared_run
        happenings
        1000
        (components
          (Unit {0})
          (Unit {0})
          (Unit {0})
          settings_json
          notification_json
          broker_publish
          clock
          hundredths
          zones
          true
          broker_start
          ClientState.new
          prepared_run)
        x
start-IsExit_example =
    start-IsExit (Unit {0}) (Unit {0}) (Unit {0}) settings_json notification_json broker_publish
      clock hundredths zones true broker_start ClientState.new prepared_run happenings
      (after (queued (connected (bytes "matrix")) moment) _
        (fails (poisoned (bytes "client registry")) (stop_requested ∷ [])))
      1000
