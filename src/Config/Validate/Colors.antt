-- ===== src/Config/Validate/Colors.antt =====
-- src/config/mod.rs: what holds of the colours of a theme that is accepted.
use awtrix_controller.Prelude.{
  ℕ, ◌≡◌, all, length, refl, ap, inl, inr, ◌∷◌, Bool, true, [], arith, All, Bool-cases, Result, ok,
  err, >>=-eq-ok, ok-injective,
}
use mathlib.Core.Path.{subst}
use awtrix_controller.Prelude.Text.{Text}
use awtrix_controller.Instants.{Floats}
use awtrix_controller.Settings.{ThemeConfig, ThemeColors}
use awtrix_controller.Config.Defaults.{
  default_theme_day_accent, default_theme_day_content, default_theme_night_accent,
  default_theme_night_content,
}
use awtrix_controller.Config.File.{FileTheme, FileThemeColors}
use awtrix_controller.Config.Entry.Given.{IsText}
use awtrix_controller.Config.Validate.{
  is_valid_hex_color, is_ascii_hexdigit, check_color, theme_colors, theme_config,
}

-- `#` and six hexadecimal digits.
abbrev pub IsHexColor : Text → Type 0
IsHexColor c =
    (digits : Text) × (c ≡ b'#' ∷ digits)
    × (length digits ≡ 6)
    × All (λ d. is_ascii_hexdigit d ≡ true) digits

-- The colours of a theme: each the file's or its default, and of that form.
abbrev pub AreColors : FileThemeColors → Text → Text → ThemeColors → Type 0
AreColors given accent content c =
    (IsText given.calendar_accent accent c.calendar_accent × IsHexColor c.calendar_accent)
    × (IsText given.content content c.content × IsHexColor c.content)

err≢ok : {E A : Type 0} (e : E) (a : A) → ◌≡◌ {A = Result E A} (err e) (ok a) → ⊥
err≢ok e a h = cc

all_hold : (p : ℕ → Bool) (s : Text) → all p s ≡ true → All (λ d. p d ≡ true) s
all_hold p [] h = tt
all_hold p (c ∷ s) h = (ground arith, all_hold p s (ground arith))

is_valid_hex_color-IsHexColor : (c : Text) → is_valid_hex_color c ≡ true → IsHexColor c
unfolding is_valid_hex_color
is_valid_hex_color-IsHexColor [] h = absurd (cc)
is_valid_hex_color-IsHexColor (c ∷ digits) h =
    let hash : c ≡ b'#' = ground arith in
    (
      digits,
      ap (λ x. x ∷ digits) hash,
      ground arith,
      all_hold is_ascii_hexdigit digits (ground arith),
    )

module _ (fl : Floats) (IoError YamlError : Type 0) where
  check_color-valid :
      (theme field value default c : Text)
      → is_valid_hex_color default ≡ true
      → check_color fl.F IoError YamlError theme field value default ≡ ok c
      → IsText value default c × IsHexColor c
  unfolding check_color
  check_color-valid theme field [] default c d h =
      subst (λ v. IsText [] default v × IsHexColor v) (ok-injective default c h)
        (inr (refl, refl), is_valid_hex_color-IsHexColor default d)
  check_color-valid theme field (x ∷ s) default c d h =
      elim (Bool-cases (is_valid_hex_color (x ∷ s))) [
        | inl v ↦
            subst (λ v. IsText (x ∷ s) default v × IsHexColor v)
              (ok-injective (x ∷ s) c (rw (v, check_color) at h))
              (inl (refl, λ e. cc), is_valid_hex_color-IsHexColor (x ∷ s) v)
        | inr n ↦ absurd (err≢ok _ c (rw (n, check_color) at h))
      ]

  theme_colors-AreColors :
      (colors : FileThemeColors) (theme accent content : Text) (c : ThemeColors)
      → is_valid_hex_color accent ≡ true
      → is_valid_hex_color content ≡ true
      → theme_colors fl.F IoError YamlError colors theme accent content ≡ ok c
      → AreColors colors accent content c
  unfolding theme_colors
  theme_colors-AreColors colors theme accent content c a b h =
      let (v, e, h1) = >>=-eq-ok _ _ h in
      let (w, f, h2) = >>=-eq-ok _ _ h1 in
      subst (AreColors colors accent content) (ok-injective _ c h2)
        (check_color-valid _ _ _ _ v a e, check_color-valid _ _ _ _ w b f)

  pub theme_config-AreColors :
      (theme : FileTheme) (c : ThemeConfig)
      → theme_config fl.F IoError YamlError theme ≡ ok c
      → AreColors theme.day default_theme_day_accent default_theme_day_content c.day
        × AreColors theme.night default_theme_night_accent default_theme_night_content c.night
  unfolding theme_config is_valid_hex_color
  theme_config-AreColors theme c h =
      let (v, e, h1) = >>=-eq-ok _ _ h in
      let (w, f, h2) = >>=-eq-ok _ _ h1 in
      subst
        (λ (t : ThemeConfig).
          AreColors theme.day default_theme_day_accent default_theme_day_content t.day
          × AreColors theme.night default_theme_night_accent default_theme_night_content t.night)
        (ok-injective _ c h2)
        (theme_colors-AreColors _ _ _ _ v refl refl e, theme_colors-AreColors _ _ _ _ w refl refl f)
