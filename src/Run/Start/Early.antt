-- ===== src/Run/Start/Early.antt =====
-- src/run/mod.rs: the runs that end before a component is started.
use awtrix_controller.Prelude.{
  ◌≡◌, refl, sym, ◌∙◌, ◌⊎◌, inl, inr, Bool, true, false, Option, none, some, List, Bool-cases,
  Result, ok, err,
}
use awtrix_controller.Prelude.Text.{Text}
use awtrix_controller.Instants.{Floats}
use awtrix_controller.Config.Timezone.{Zones, load_time_zone}
use awtrix_controller.Config.Sections.{Config, ConfigError}
use awtrix_controller.Config.File.{FileConfig}
use awtrix_controller.Config.Entry.{is_empty, is_ok}
use awtrix_controller.Config.Validate.{load}
use awtrix_controller.Config.Validate.Accepted.{load-IsConfigValid}
use awtrix_controller.Cli.{Cli}
use awtrix_controller.Cli.Form.{single_dash_long_form}
use awtrix_controller.Run.Start.{
  Exit, early, time_zone, Prepared, Setting, in_zone, prepared, config_path, configured, parsed,
  is_version, run_with_options,
}

zone_of_ok :
    {Z : Type 0} (r : Result Text Z)
    → is_ok r ≡ true
    → (z : Z) × (elim r [ ok zone ↦ some zone | err _ ↦ none ] ≡ some z)
zone_of_ok (ok z) h = (z, refl)
zone_of_ok (err e) h = absurd (cc)

time_zone_known :
    {F : Type 0} (zones : Zones) (config : Config F)
    → (is_empty config.timezone ≡ true) ⊎ (is_ok (load_time_zone zones config.timezone) ≡ true)
    → (z : zones.Zone) × (time_zone zones config ≡ some z)
unfolding time_zone
time_zone_known zones config (inl h) = (zones.system, rw h refl)
time_zone_known zones config (inr h) = elim (Bool-cases (is_empty config.timezone)) [
  | inl e ↦ (zones.system, rw e refl)
  | inr e ↦ let (z, eq) = zone_of_ok (load_time_zone zones config.timezone) h in (z, rw e eq)
]

-- What a return before the start of the components gives.
abbrev pub IsEarly : Exit → Type 0
IsEarly x = (x.deadline ≡ none) × ((x.code ≡ 0) ⊎ (x.code ≡ 1))

early_config : IsEarly (early 1)
unfolding early
early_config = (refl, inr refl)

abbrev EndsEarly : {P : Type 0} → Result Exit P → Type 0
EndsEarly (ok p) = Unit
EndsEarly (err x) = IsEarly x

module _ (fl : Floats) (zones : Zones) (LoadError : Type 0) (set : Setting fl LoadError) where
  in_zone-early :
      (cli : Cli) (config : Config fl.F) (zone : Option zones.Zone)
      → EndsEarly (in_zone fl zones LoadError set cli config zone)
  unfolding early
  in_zone-early cli config none = (refl, inr refl)
  in_zone-early cli config (some zone) = tt

  configured-early : (cli : Cli) → EndsEarly (configured fl zones LoadError set cli)
  configured-early cli = loaded (set.load_file (config_path fl zones LoadError set cli)) refl
    where
      loaded :
          (r : Result LoadError (Config fl.F))
          → set.load_file (config_path fl zones LoadError set cli) ≡ r
          → EndsEarly (configured fl zones LoadError set cli)
      loaded (err e) eq = rw (eq, configured) early_config
      loaded (ok config) eq =
          rw (eq, configured) (in_zone-early cli config (time_zone zones config))

  parsed-early : (given : Result Bool Cli) → EndsEarly (parsed fl zones LoadError set given)
  unfolding early
  parsed-early (err true) = (refl, inr refl)
  parsed-early (err false) = (refl, inl refl)
  parsed-early (ok cli) = elim (Bool-cases (is_version cli.version)) [
    | inl v ↦ rw (v, parsed) (refl, inl refl)
    | inr n ↦ rw (n, parsed) (configured-early cli)
  ]

  returned-early :
      (args : List (Option Text)) → EndsEarly (run_with_options fl zones LoadError set args)
  unfolding run_with_options
  returned-early args = searched (single_dash_long_form set.options args) refl
    where
      searched :
          (form : Option (Text × Text))
          → single_dash_long_form set.options args ≡ form
          → EndsEarly (run_with_options fl zones LoadError set args)
      searched (some form) eq = rw (eq, run_with_options) early_config
      searched none eq = rw (eq, run_with_options) (parsed-early (set.try_parse_from args))

  -- Every run that returns before the components are started has no shutdown deadline, and its exit code
  -- is 0 or 1.
  pub run_with_options-early :
      (args : List (Option Text)) (x : Exit)
      → run_with_options fl zones LoadError set args ≡ err x
      → (x.deadline ≡ none) × ((x.code ≡ 0) ⊎ (x.code ≡ 1))
  run_with_options-early args x h =
      let early : EndsEarly (run_with_options fl zones LoadError set args) = returned-early args in
      rw h at early

  -- The zone of the configuration is known.
  in_zone-known :
      (cli : Cli) (config : Config fl.F)
      → (z : zones.Zone) × (time_zone zones config ≡ some z)
      → set.load_file (config_path fl zones LoadError set cli) ≡ ok config
      → (p : Prepared fl.F zones.Zone) × (configured fl zones LoadError set cli ≡ ok p)
        × (p.config ≡ config)
  in_zone-known cli config (z, eq) loaded =
      (prepared fl zones LoadError set cli config z, rw (loaded, configured) (rw eq refl), refl)

module _ (fl : Floats) (zones : Zones) (IoError YamlError : Type 0)
    (from_str : Text → Result YamlError (FileConfig fl.F))
    (read_to_string : Text → Result IoError Text)
    (set : Setting fl (ConfigError fl.F IoError YamlError))
    (loads : (path : Text)
      → set.load_file path ≡ load fl zones IoError YamlError from_str read_to_string path) where
  -- When the arguments parse, have no single-dash long form and do not ask for the version, and the
  -- configuration file at the path they or the environment give loads, then the components are started
  -- with that configuration: its time zone is never the reason to stop.
  pub run_with_options-loaded :
      (args : List (Option Text)) (cli : Cli) (config : Config fl.F)
      → single_dash_long_form set.options args ≡ none
      → set.try_parse_from args ≡ ok cli
      → is_version cli.version ≡ false
      → set.load_file (config_path fl zones (ConfigError fl.F IoError YamlError) set cli)
        ≡ ok config
      → (p : Prepared fl.F zones.Zone) × (run_with_options fl zones
            (ConfigError fl.F IoError YamlError)
            set
            args
          ≡ ok p)
        × (p.config ≡ config)
  unfolding run_with_options
  run_with_options-loaded args cli config form parses version loaded =
      let path = config_path fl zones (ConfigError fl.F IoError YamlError) set cli in
      let (_, file, _, _, valid) =
        load-IsConfigValid fl zones IoError YamlError from_str read_to_string path config
          (sym (loads path) ∙ loaded) in
      let known = time_zone_known zones config valid.timezone in
      let (p, eq, same) =
        in_zone-known fl zones (ConfigError fl.F IoError YamlError) set cli config known loaded in
      (p, rw (form, parses, run_with_options) (rw version eq), same)
