-- ===== src/Config/WeatherSection/Ranges.antt =====
-- src/config/mod.rs: what holds of a weather section that is accepted.
use awtrix_controller.Prelude.{
  ◌≡◌, ◌≢◌, refl, sym, ap, ◌⊎◌, inl, inr, ◌&&◌, ◌||◌, Bool, true, false, unwrap_or, Option, none,
  some, arith, Bool-cases, Result, ok, err, >>=-eq-ok, ok-injective,
}
use mathlib.Core.Path.{subst}
use awtrix_controller.Prelude.Int.{ℤ, pos, ltb_ℤ, eqb_ℤ, ◌<ℤ◌}
use awtrix_controller.Prelude.Text.{Text, same}
use awtrix_controller.Instants.{Floats}
use awtrix_controller.Weather.Config.{WeatherConfig}
use awtrix_controller.Config.Sections.{ConfigError}
use awtrix_controller.Config.Entry.{non_zero_or}
use awtrix_controller.Config.File.{FileWeather}
use awtrix_controller.Config.Defaults.{Literal}
use awtrix_controller.Config.Defaults
use awtrix_controller.Config.WeatherSection.{
  non_negative, finite, threshold, positive_or_default, weather,
}

-- The integer that is given, or the default for none and for 0.
abbrev pub IsNonZeroSetting : Option ℤ → ℤ → ℤ → Type 0
IsNonZeroSetting given default v =
    ((given ≡ some v) × (v ≢ pos 0)) ⊎ ((v ≡ default) × ((given ≡ none) ⊎ (given ≡ some (pos 0))))

-- A positive integer: the one given, or the default for none and for 0.
abbrev pub IsPositiveSetting : Option ℤ → ℤ → ℤ → Type 0
IsPositiveSetting given default v = (pos 0 <ℤ v) × IsNonZeroSetting given default v

-- The switch that is given, or the default for none.
abbrev pub IsSwitch : Option Bool → Bool → Bool → Type 0
IsSwitch given default v = (given ≡ some v) ⊎ ((given ≡ none) × (v ≡ default))

pub IsSwitch-cases :
    (given : Option Bool) (default : Bool) → IsSwitch given default (unwrap_or given default)
IsSwitch-cases none default = inr (refl, refl)
IsSwitch-cases (some b) default = inl refl

-- A float: the one given, which is finite and not negative, or the default for none.
abbrev pub IsThreshold : (fl : Floats) → Option fl.F → Literal → fl.F → Type 0
IsThreshold fl given (n, k) v =
    ((given ≡ none) × (v ≡ fl.literal n k))
    ⊎ ((given ≡ some v) × (fl.is_finite v ≡ true) × (fl.le (fl.literal 0 1) v ≡ true))

-- A float that may be negative.
abbrev pub IsTemperature : (fl : Floats) → Option fl.F → Literal → fl.F → Type 0
IsTemperature fl given (n, k) v =
    ((given ≡ none) × (v ≡ fl.literal n k)) ⊎ ((given ≡ some v) × (fl.is_finite v ≡ true))

pub non_zero_or_cases :
    (given : Option ℤ) (default : ℤ) → IsNonZeroSetting given default (non_zero_or given default)
unfolding non_zero_or
non_zero_or_cases none default = inr (refl, inl refl)
non_zero_or_cases (some g) default = elim (Bool-cases (eqb_ℤ g (pos 0))) [
  | inl z ↦ let zero_given : g ≡ pos 0 = ground arith in rw z (inr (refl, inr (ap some zero_given)))
  | inr n ↦ rw n (inl (refl, λ e. ground arith))
]

err≢ok : {E A : Type 0} (e : E) (a : A) → ◌≡◌ {A = Result E A} (err e) (ok a) → ⊥
err≢ok e a h = cc

module _ (fl : Floats) (IoError YamlError : Type 0) where
  abbrev Error : Type 0
  Error = ConfigError fl.F IoError YamlError

  positive_or_default-ok :
      (given : Option ℤ) (default : ℤ) (field : Text) (v : ℤ)
      → positive_or_default fl IoError YamlError given default field ≡ ok v
      → IsPositiveSetting given default v
  unfolding positive_or_default
  positive_or_default-ok given default field v h =
      elim (Bool-cases (ltb_ℤ (pos 0) (non_zero_or given default))) [
        | inl p ↦
            let same_v : non_zero_or given default ≡ v =
              ok-injective _ v (rw (p, positive_or_default) at h) in
            subst (IsPositiveSetting given default) same_v
              (ground (arith, p), non_zero_or_cases given default)
        | inr n ↦ absurd (err≢ok _ v (rw (n, positive_or_default) at h))
      ]

  threshold_given :
      (value : fl.F) (l : Literal) (field expected : Text) (v : fl.F)
      → threshold fl IoError YamlError (some value) l field expected ≡ ok v
      → (some value ≡ some v)
        × (fl.is_finite v ≡ true)
        × ((same expected finite || fl.le (fl.literal 0 1) v) ≡ true)
  unfolding threshold
  threshold_given value l field expected v h =
      elim (Bool-cases
        (fl.is_finite value && (same expected finite || fl.le (fl.literal 0 1) value))) [
          | inl p ↦
              let same_v : value ≡ v = ok-injective value v (rw (p, threshold) at h) in
              subst
                (λ v'.
                  (some value ≡ some v')
                  × (fl.is_finite v' ≡ true)
                  × ((same expected finite || fl.le (fl.literal 0 1) v') ≡ true))
                same_v (refl, ground (arith, p), ground (arith, p))
          | inr n ↦ absurd (err≢ok _ v (rw (n, threshold) at h))
        ]

  threshold-ok :
      (given : Option fl.F) (l : Literal) (field : Text) (v : fl.F)
      → threshold fl IoError YamlError given l field non_negative ≡ ok v
      → IsThreshold fl given l v
  unfolding threshold same
  threshold-ok none (n, k) field v h = inl (refl, sym (ok-injective _ v h))
  threshold-ok (some value) l field v h = inr (threshold_given value l field non_negative v h)

  threshold-IsTemperature :
      (given : Option fl.F) (l : Literal) (field : Text) (v : fl.F)
      → threshold fl IoError YamlError given l field finite ≡ ok v
      → IsTemperature fl given l v
  unfolding threshold
  threshold-IsTemperature none (n, k) field v h = inl (refl, sym (ok-injective _ v h))
  threshold-IsTemperature (some value) l field v h =
      let (e, f, _) = threshold_given value l field finite v h in inr (e, f)

  -- Each setting of an accepted section is the one of the file or its default, and in its range.
  pub record IsWeatherValid (file : FileWeather fl.F) (c : WeatherConfig fl.F) : Type 0 where
    pub poll_interval_minutes :
        IsPositiveSetting file.poll_interval_minutes Defaults.default_weather_poll_interval_minutes
          c.poll_interval_minutes
    pub overlay_horizon_minutes :
        IsPositiveSetting file.overlay_horizon_minutes
          Defaults.default_weather_overlay_horizon_minutes c.overlay_horizon_minutes
    pub notification_horizon_hours :
        IsPositiveSetting file.notification_horizon_hours
          Defaults.default_weather_notification_horizon_hours c.notification_horizon_hours
    pub notification_repeat_minutes :
        IsPositiveSetting file.notification_repeat_minutes
          Defaults.default_weather_notification_repeat_minutes c.notification_repeat_minutes
    pub inactive_after_missing_polls :
        IsPositiveSetting file.inactive_after_missing_polls
          Defaults.default_weather_inactive_after_missing_polls c.inactive_after_missing_polls
    pub data_stale_ttl_minutes :
        IsPositiveSetting file.data_stale_ttl_minutes
          Defaults.default_weather_data_stale_ttl_minutes c.data_stale_ttl_minutes
    pub enabled : IsSwitch file.enabled false c.enabled
    pub notification_text_repeat :
        IsNonZeroSetting file.notification_text_repeat
          Defaults.default_weather_notification_text_repeat c.notification_text_repeat
    pub notify_thunderstorm : IsSwitch file.notify_thunderstorm true c.notify_thunderstorm
    pub notify_freezing_precip : IsSwitch file.notify_freezing_precip true c.notify_freezing_precip
    pub notify_frost_risk : IsSwitch file.notify_frost_risk true c.notify_frost_risk
    pub notify_heavy_rain : IsSwitch file.notify_heavy_rain true c.notify_heavy_rain
    pub notify_strong_gusts : IsSwitch file.notify_strong_gusts true c.notify_strong_gusts
    pub notify_snow : IsSwitch file.notify_snow true c.notify_snow
    pub notify_fog : IsSwitch file.notify_fog false c.notify_fog
    pub rtttl : c.rtttl ≡ file.rtttl
    pub gust_warn_kmh :
        IsThreshold fl file.gust_warn_kmh Defaults.default_weather_gust_warn_kmh c.gust_warn_kmh
    pub gust_severe_kmh :
        IsThreshold fl file.gust_severe_kmh Defaults.default_weather_gust_severe_kmh
          c.gust_severe_kmh
    pub heavy_rain_mm_per_15_min :
        IsThreshold fl file.heavy_rain_mm_per_15_min
          Defaults.default_weather_heavy_rain_mm_per_15min c.heavy_rain_mm_per_15_min
    pub fog_visibility_warn_m :
        IsThreshold fl file.fog_visibility_warn_m Defaults.default_weather_fog_visibility_warn_m
          c.fog_visibility_warn_m
    pub fog_visibility_severe_m :
        IsThreshold fl file.fog_visibility_severe_m Defaults.default_weather_fog_visibility_severe_m
          c.fog_visibility_severe_m
    pub frost_temp_c :
        IsTemperature fl file.frost_temp_c Defaults.default_weather_frost_temp_c c.frost_temp_c
    pub frost_dew_point_delta_c :
        IsThreshold fl file.frost_dew_point_delta_c Defaults.default_weather_frost_dew_point_delta_c
          c.frost_dew_point_delta_c
    pub frost_warn_precip_window_h :
        IsThreshold fl file.frost_warn_precip_window_h
          Defaults.default_weather_frost_warn_precip_window_h c.frost_warn_precip_window_h
    pub frost_warn_precip_mm :
        IsThreshold fl file.frost_warn_precip_mm Defaults.default_weather_frost_warn_precip_mm
          c.frost_warn_precip_mm

  pub weather-IsWeatherValid :
      (file : FileWeather fl.F) (c : WeatherConfig fl.F)
      → weather fl IoError YamlError file ≡ ok c
      → IsWeatherValid file c
  unfolding weather
  weather-IsWeatherValid file c h0 =
      let (v0, e0, h1) = >>=-eq-ok _ _ h0 in
      let (v1, e1, h2) = >>=-eq-ok _ _ h1 in
      let (v2, e2, h3) = >>=-eq-ok _ _ h2 in
      let (v3, e3, h4) = >>=-eq-ok _ _ h3 in
      let (v4, e4, h5) = >>=-eq-ok _ _ h4 in
      let (v5, e5, h6) = >>=-eq-ok _ _ h5 in
      let (v6, e6, h7) = >>=-eq-ok _ _ h6 in
      let (v7, e7, h8) = >>=-eq-ok _ _ h7 in
      let (v8, e8, h9) = >>=-eq-ok _ _ h8 in
      let (v9, e9, h10) = >>=-eq-ok _ _ h9 in
      let (v10, e10, h11) = >>=-eq-ok _ _ h10 in
      let (v11, e11, h12) = >>=-eq-ok _ _ h11 in
      let (v12, e12, h13) = >>=-eq-ok _ _ h12 in
      let (v13, e13, h14) = >>=-eq-ok _ _ h13 in
      let (v14, e14, h15) = >>=-eq-ok _ _ h14 in
      subst (IsWeatherValid file) (ok-injective _ c h15) (record {
        poll_interval_minutes = positive_or_default-ok _ _ _ v0 e0;
        overlay_horizon_minutes = positive_or_default-ok _ _ _ v1 e1;
        notification_horizon_hours = positive_or_default-ok _ _ _ v2 e2;
        notification_repeat_minutes = positive_or_default-ok _ _ _ v3 e3;
        inactive_after_missing_polls = positive_or_default-ok _ _ _ v4 e4;
        data_stale_ttl_minutes = positive_or_default-ok _ _ _ v5 e5;
        enabled = IsSwitch-cases file.enabled false;
        notification_text_repeat = non_zero_or_cases file.notification_text_repeat _;
        notify_thunderstorm = IsSwitch-cases file.notify_thunderstorm true;
        notify_freezing_precip = IsSwitch-cases file.notify_freezing_precip true;
        notify_frost_risk = IsSwitch-cases file.notify_frost_risk true;
        notify_heavy_rain = IsSwitch-cases file.notify_heavy_rain true;
        notify_strong_gusts = IsSwitch-cases file.notify_strong_gusts true;
        notify_snow = IsSwitch-cases file.notify_snow true;
        notify_fog = IsSwitch-cases file.notify_fog false;
        rtttl = refl;
        gust_warn_kmh = threshold-ok _ _ _ v6 e6;
        gust_severe_kmh = threshold-ok _ _ _ v7 e7;
        heavy_rain_mm_per_15_min = threshold-ok _ _ _ v8 e8;
        fog_visibility_warn_m = threshold-ok _ _ _ v9 e9;
        fog_visibility_severe_m = threshold-ok _ _ _ v10 e10;
        frost_temp_c = threshold-IsTemperature _ _ _ v11 e11;
        frost_dew_point_delta_c = threshold-ok _ _ _ v12 e12;
        frost_warn_precip_window_h = threshold-ok _ _ _ v13 e13;
        frost_warn_precip_mm = threshold-ok _ _ _ v14 e14;
      })
