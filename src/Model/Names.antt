-- ===== src/Model/Names.antt =====
-- src/model/enums.rs: the name that reaches the device.
use awtrix_controller.Prelude.{◌≡◌, refl, sym, if◌then◌else◌, Bool-cases, inl, inr}
use awtrix_controller.Prelude.Text.{Text, bytes, same, eq_of_same}
use awtrix_controller.Model.Enums
use awtrix_controller.Model.Open.TimeFormat
use awtrix_controller.Model.Open.DateFormat
use awtrix_controller.Model.Open.Effect
use awtrix_controller.Model.Open.EffectPalette

-- A name that fits its pattern, and the rest of the `match`.
known :
    {E : Type 0} (print : E → Text) (name expected : Text) (e rest : E)
    → print e ≡ expected
    → print rest ≡ name
    → print (if same name expected then e else rest) ≡ name
known print name expected e rest he hr = elim (Bool-cases (same name expected)) [
  | inl fits ↦ rw (fits, he) (sym (eq_of_same name expected fits))
  | inr differs ↦ rw differs hr
]

time_format_kept : (name : Text) → TimeFormat.as_str (TimeFormat.from_name name) ≡ name
unfolding TimeFormat.from_name TimeFormat.as_str
time_format_kept name = known TimeFormat.as_str name (bytes "%H:%M:%S") _ _ refl (
    known TimeFormat.as_str name (bytes "%l:%M:%S") _ _ refl (
      known TimeFormat.as_str name (bytes "%H:%M") _ _ refl (
        known TimeFormat.as_str name (bytes "%H %M") _ _ refl (
          known TimeFormat.as_str name (bytes "%l:%M") _ _ refl (
            known TimeFormat.as_str name (bytes "%l %M") _ _ refl (
              known TimeFormat.as_str name (bytes "%l:%M %p") _ _ refl
                (known TimeFormat.as_str name (bytes "%l %M %p") _ _ refl (refl))))))))

date_format_kept : (name : Text) → DateFormat.as_str (DateFormat.from_name name) ≡ name
unfolding DateFormat.from_name DateFormat.as_str
date_format_kept name = known DateFormat.as_str name (bytes "%d.%m.%y") _ _ refl (
    known DateFormat.as_str name (bytes "%d.%m") _ _ refl (
      known DateFormat.as_str name (bytes "%y-%m-%d") _ _ refl (
        known DateFormat.as_str name (bytes "%m-%d") _ _ refl (
          known DateFormat.as_str name (bytes "%m/%d/%y") _ _ refl (
            known DateFormat.as_str name (bytes "%m/%d") _ _ refl (
              known DateFormat.as_str name (bytes "%d/%m/%y") _ _ refl (
                known DateFormat.as_str name (bytes "%d/%m") _ _ refl
                  (known DateFormat.as_str name (bytes "%m-%d-%y") _ _ refl (refl)))))))))

overlay_effect_kept : (name : Text) → Enums.as_str (Enums.from_name name) ≡ name
unfolding Enums.from_name Enums.as_str
overlay_effect_kept name = known Enums.as_str name (bytes "clear") _ _ refl (
    known Enums.as_str name (bytes "snow") _ _ refl (
      known Enums.as_str name (bytes "rain") _ _ refl (
        known Enums.as_str name (bytes "drizzle") _ _ refl (
          known Enums.as_str name (bytes "storm") _ _ refl (
            known Enums.as_str name (bytes "thunder") _ _ refl
              (known Enums.as_str name (bytes "frost") _ _ refl (refl)))))))

effect_kept : (name : Text) → Effect.as_str (Effect.from_name name) ≡ name
unfolding Effect.from_name Effect.as_str
effect_kept name = known Effect.as_str name (bytes "BrickBreaker") _ _ refl (
    known Effect.as_str name (bytes "Checkerboard") _ _ refl (
      known Effect.as_str name (bytes "ColorWaves") _ _ refl (
        known Effect.as_str name (bytes "Fade") _ _ refl (
          known Effect.as_str name (bytes "Fireworks") _ _ refl (
            known Effect.as_str name (bytes "LookingEyes") _ _ refl (
              known Effect.as_str name (bytes "Matrix") _ _ refl (
                known Effect.as_str name (bytes "MovingLine") _ _ refl (
                  known Effect.as_str name (bytes "Pacifica") _ _ refl (
                    known Effect.as_str name (bytes "PingPong") _ _ refl (
                      known Effect.as_str name (bytes "Plasma") _ _ refl (
                        known Effect.as_str name (bytes "PlasmaCloud") _ _ refl (
                          known Effect.as_str name (bytes "Radar") _ _ refl (
                            known Effect.as_str name (bytes "Ripple") _ _ refl (
                              known Effect.as_str name (bytes "Snake") _ _ refl (
                                known Effect.as_str name (bytes "SwirlIn") _ _ refl (
                                  known Effect.as_str name (bytes "SwirlOut") _ _ refl (
                                    known Effect.as_str name (bytes "TheaterChase") _ _ refl (
                                      known Effect.as_str name (bytes "TwinklingStars") _ _ refl
                                        (refl)))))))))))))))))))

effect_palette_kept : (name : Text) → EffectPalette.as_str (EffectPalette.from_name name) ≡ name
unfolding EffectPalette.from_name EffectPalette.as_str
effect_palette_kept name = known EffectPalette.as_str name (bytes "Cloud") _ _ refl (
    known EffectPalette.as_str name (bytes "Forest") _ _ refl (
      known EffectPalette.as_str name (bytes "Heat") _ _ refl (
        known EffectPalette.as_str name (bytes "Lava") _ _ refl (
          known EffectPalette.as_str name (bytes "Ocean") _ _ refl (
            known EffectPalette.as_str name (bytes "Party") _ _ refl (
              known EffectPalette.as_str name (bytes "Rainbow") _ _ refl
                (known EffectPalette.as_str name (bytes "Stripe") _ _ refl (refl))))))))

-- For each of the open string enums (time formats, date formats, overlays, effects and palettes),
-- a name that is read in, known or not, is sent on as it was given.
pub as_str-from_name :
    (name : Text)
    → (TimeFormat.as_str (TimeFormat.from_name name) ≡ name)
      × (DateFormat.as_str (DateFormat.from_name name) ≡ name)
      × (Enums.as_str (Enums.from_name name) ≡ name)
      × (Effect.as_str (Effect.from_name name) ≡ name)
      × (EffectPalette.as_str (EffectPalette.from_name name) ≡ name)
as_str-from_name name = (
  time_format_kept name,
  date_format_kept name,
  overlay_effect_kept name,
  effect_kept name,
  effect_palette_kept name,
)
