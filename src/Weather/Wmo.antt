-- ===== src/Weather/Wmo.antt =====
-- src/weather/mapping/mod.rs, `mod wmo`: the WMO weather codes.
use awtrix_controller.Prelude.{Bool, List, [], ◌∷◌, any}
use awtrix_controller.Prelude.Int.{ℤ, pos, eqb_ℤ}

abbrev pub fog_light : ℤ
fog_light = pos 45

abbrev pub fog_rime : ℤ
fog_rime = pos 48

abbrev pub drizzle_light : ℤ
drizzle_light = pos 51

abbrev pub drizzle_moderate : ℤ
drizzle_moderate = pos 53

abbrev pub drizzle_heavy : ℤ
drizzle_heavy = pos 55

abbrev pub freezing_drizzle_light : ℤ
freezing_drizzle_light = pos 56

abbrev pub freezing_drizzle_heavy : ℤ
freezing_drizzle_heavy = pos 57

abbrev pub rain_light : ℤ
rain_light = pos 61

abbrev pub rain_moderate : ℤ
rain_moderate = pos 63

abbrev pub rain_heavy : ℤ
rain_heavy = pos 65

abbrev pub freezing_rain_light : ℤ
freezing_rain_light = pos 66

abbrev pub freezing_rain_heavy : ℤ
freezing_rain_heavy = pos 67

abbrev pub snow_light : ℤ
snow_light = pos 71

abbrev pub snow_moderate : ℤ
snow_moderate = pos 73

abbrev pub snow_heavy : ℤ
snow_heavy = pos 75

abbrev pub snow_grains : ℤ
snow_grains = pos 77

abbrev pub rain_shower_slight : ℤ
rain_shower_slight = pos 80

abbrev pub rain_shower_moderate : ℤ
rain_shower_moderate = pos 81

abbrev pub storm_heavy_rain : ℤ
storm_heavy_rain = pos 82

abbrev pub snow_shower_light : ℤ
snow_shower_light = pos 85

abbrev pub snow_shower_heavy : ℤ
snow_shower_heavy = pos 86

abbrev pub thunderstorm : ℤ
thunderstorm = pos 95

abbrev pub thunderstorm_hail : ℤ
thunderstorm_hail = pos 96

abbrev pub thunderstorm_heavy_hail : ℤ
thunderstorm_heavy_hail = pos 99

-- One of the alternatives of a pattern.
abbrev among : ℤ → List ℤ → Bool
among code codes = any (eqb_ℤ code) codes

-- The alternatives of each arm of `wmo_to_overlay`.
abbrev pub is_drizzle : ℤ → Bool
is_drizzle code = among code (drizzle_light ∷ drizzle_moderate ∷ drizzle_heavy ∷ [])

abbrev pub is_freezing : ℤ → Bool
is_freezing code = among code (
    freezing_drizzle_light ∷ freezing_drizzle_heavy ∷ freezing_rain_light ∷ freezing_rain_heavy
    ∷ [])

abbrev pub is_rain : ℤ → Bool
is_rain code =
    among code
      (rain_light ∷ rain_moderate ∷ rain_heavy ∷ rain_shower_slight ∷ rain_shower_moderate ∷ [])

abbrev pub is_snow : ℤ → Bool
is_snow code = among code (
    snow_light ∷ snow_moderate ∷ snow_heavy ∷ snow_grains ∷ snow_shower_light ∷ snow_shower_heavy
    ∷ [])

abbrev pub is_storm : ℤ → Bool
is_storm code = among code (storm_heavy_rain ∷ [])

abbrev pub is_thunder : ℤ → Bool
is_thunder code = among code (thunderstorm ∷ thunderstorm_hail ∷ thunderstorm_heavy_hail ∷ [])

abbrev pub is_fog : ℤ → Bool
is_fog code = among code (fog_light ∷ fog_rime ∷ [])
