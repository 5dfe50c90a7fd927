-- ===== src/Settings.antt =====
-- src/settings/mod.rs: the settings payload that a device is sent.
--
-- The two providers are the answers that they give when `build` asks them.
pub mod Built
use awtrix_controller.Prelude.{
  ◌++◌, not, Bool, true, false, Option, none, some, Result, ok, err, if◌then◌else◌,
}
use awtrix_controller.Prelude.Int.{pos}
use awtrix_controller.Prelude.Text.{Text, bytes}
use awtrix_controller.State.{StateError, Lock, acquire, put, checked}
use awtrix_controller.Model.Enums.{OverlayEffect}
use awtrix_controller.Model.Settings
use awtrix_controller.DayNight.{Mode, day, night}

pub record ThemeColors : Type 0 where
  pub calendar_accent : Text
  pub content : Text

pub record ThemeConfig : Type 0 where
  pub day : ThemeColors
  pub night : ThemeColors

pub record Builder : Type 0 where
  pub theme : ThemeConfig
  pub overlay : Lock (Option OverlayEffect)

-- `Builder::new`.
unfoldable pub builder_new : ThemeConfig → Builder
builder_new theme = record { theme = theme; overlay = record { value = none; is_poisoned = false } }

abbrev pub lock_overlay : Builder → Result StateError (Option OverlayEffect)
lock_overlay b = checked (acquire b.overlay) (bytes "settings overlay")

unfoldable pub set_overlay : Builder → Option OverlayEffect → Result StateError (Unit {0}) × Builder
set_overlay b overlay = elim (lock_overlay b) [
  | err e ↦ (err e, b)
  | ok _ ↦ (ok tt, record b { overlay = put overlay b.overlay })
]

abbrev pub colors_of : ThemeConfig → Mode → ThemeColors
colors_of theme day = theme.day
colors_of theme night = theme.night

unfoldable pub build : Builder → Mode → Bool → Result StateError Settings.Settings
build b current_mode energy_saving = elim (lock_overlay b) [
  | err e ↦ err e
  | ok overlay ↦
      let colors = colors_of b.theme current_mode in
      ok (record Settings.default_settings {
        ch_col = colors.calendar_accent;
        cb_col = colors.content;
        wdca = colors.calendar_accent;
        wdci = colors.content;
        time_col = colors.content;
        date_col = colors.content;
        overlay = overlay;
        bri = if energy_saving then some (pos 1) else none;
        abri = some (not energy_saving);
      })
]

unfoldable pub topic : Text → Text
topic client_id = client_id ++ bytes "/settings"
