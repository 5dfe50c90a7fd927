-- ===== src/Settings/Built.antt =====
-- src/settings/mod.rs: what a payload says after the overlays that were set.
use awtrix_controller.Prelude.{
  ◌≡◌, ◌⊎◌, inl, inr, refl, Bool, true, false, Option, none, some, List, [], ◌∷◌, ok, err,
}
use awtrix_controller.Prelude.Int.{pos}
use awtrix_controller.Prelude.Text.{bytes}
use awtrix_controller.State.{poisoned, checked}
use awtrix_controller.Model.Enums.{OverlayEffect}
use awtrix_controller.Model.Settings
use awtrix_controller.DayNight.{Mode, day, night}
use awtrix_controller.Settings.{ThemeConfig, Builder, builder_new, set_overlay, build, ThemeColors}

-- Overlays set one after the other, whatever each call answers.
unfoldable pub set_all : Builder → List (Option OverlayEffect) → Builder
set_all b [] = b
set_all b (o ∷ os) = set_all (set_overlay b o).1 os

-- The last one, or what was there before.
unfoldable pub last_of : Option OverlayEffect → List (Option OverlayEffect) → Option OverlayEffect
last_of o [] = o
last_of o (o' ∷ os) = last_of o' os

abbrev showing : ThemeConfig → Option OverlayEffect → Builder
showing theme o = record { theme = theme; overlay = record { value = o; is_poisoned = false } }

set_all-showing :
    (theme : ThemeConfig) (o : Option OverlayEffect) (os : List (Option OverlayEffect))
    → set_all (showing theme o) os ≡ showing theme (last_of o os)
unfolding set_all last_of set_overlay checked
set_all-showing theme o [] = refl
set_all-showing theme o (o' ∷ os) = set_all-showing theme o' os

-- What a payload says: the accent in the calendar's header and in the day of the week that is today,
-- the content colour in the calendar's body, the other days, the time and the date; the overlay; `BRI` 1
-- exactly while energy saving is active and `ABRI` exactly otherwise; and all else as in `Default`.
abbrev pub IsPayload : ThemeColors → Option OverlayEffect → Bool → Settings.Settings → Type 0
IsPayload colors overlay energy_saving s =
    ((s.ch_col ≡ colors.calendar_accent) × (s.wdca ≡ colors.calendar_accent))
    × ((s.cb_col ≡ colors.content)
        × (s.wdci ≡ colors.content)
        × (s.time_col ≡ colors.content)
        × (s.date_col ≡ colors.content))
    × (s.overlay ≡ overlay)
    × (((energy_saving ≡ true) × (s.bri ≡ some (pos 1)) × (s.abri ≡ some false))
        ⊎ ((energy_saving ≡ false) × (s.bri ≡ none) × (s.abri ≡ some true)))
    × (record s {
      ch_col = Settings.default_settings.ch_col;
      cb_col = Settings.default_settings.cb_col;
      wdca = Settings.default_settings.wdca;
      wdci = Settings.default_settings.wdci;
      time_col = Settings.default_settings.time_col;
      date_col = Settings.default_settings.date_col;
      overlay = Settings.default_settings.overlay;
      bri = Settings.default_settings.bri;
      abri = Settings.default_settings.abri;
    }
        ≡ Settings.default_settings)

-- After any overlays were set on a new builder, a payload can be built for the day and for the night,
-- whatever was built before. By day it has the day's two colours of the theme, and by night the night's:
-- the accent in two places and the content colour in four. Both have the last overlay that was set, or
-- none when none was, `BRI` 1 exactly while energy saving is active, `ABRI` exactly otherwise, and all
-- other fields as the default settings.
pub build_last :
    (theme : ThemeConfig) (os : List (Option OverlayEffect)) (energy_saving : Bool)
    → let b = set_all (builder_new theme) os in
      ((s : Settings.Settings) × (build b day energy_saving ≡ ok s)
        × IsPayload theme.day (last_of none os) energy_saving s)
      × ((s : Settings.Settings) × (build b night energy_saving ≡ ok s)
          × IsPayload theme.night (last_of none os) energy_saving s)
unfolding builder_new build checked
build_last theme os true = rw (set_all-showing theme none os) (
  (_, refl, ((refl, refl), (refl, refl, refl, refl), refl, inl (refl, refl, refl), refl)),
  (_, refl, ((refl, refl), (refl, refl, refl, refl), refl, inl (refl, refl, refl), refl)),
)
build_last theme os false = rw (set_all-showing theme none os) (
  (_, refl, ((refl, refl), (refl, refl, refl, refl), refl, inr (refl, refl, refl), refl)),
  (_, refl, ((refl, refl), (refl, refl, refl, refl), refl, inr (refl, refl, refl), refl)),
)

-- Once the overlay's lock is poisoned, setting an overlay and building a payload both fail with its
-- name, and the builder stays as it is.
pub builder-poisoned :
    (b : Builder) (o : Option OverlayEffect) (mode : Mode) (energy_saving : Bool)
    → b.overlay.is_poisoned ≡ true
    → let e = poisoned (bytes "settings overlay") in
      (set_overlay b o ≡ (err e, b)) × (build b mode energy_saving ≡ err e)
unfolding set_overlay build checked
builder-poisoned b o mode es h = (rw h refl, rw h refl)
