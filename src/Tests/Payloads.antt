-- ===== src/Tests/Payloads.antt =====
-- Runs of the settings builder.
use awtrix_controller.Prelude.{◌≡◌, true, Option, none, some, List, [], ◌∷◌, ok}
use awtrix_controller.Prelude.Text.{bytes}
use awtrix_controller.Model.Enums.{OverlayEffect, rain, thunder}
use awtrix_controller.Model.Settings
use awtrix_controller.Model.Payload.{TextContent, fragments}
use awtrix_controller.Model.Wire.{encode_text, decode_text}
use awtrix_controller.Model.Wire.Trips.{written, decode_text-encode_text}
use awtrix_controller.DayNight.{day, night}
use awtrix_controller.Settings.{ThemeConfig, Builder, builder_new, build}
use awtrix_controller.Settings.Built.{set_all, last_of, IsPayload, build_last}

abbrev theme : ThemeConfig
theme = record {
  day = record { calendar_accent = bytes "#FF0000"; content = bytes "#FFFFFF" };
  night = record { calendar_accent = bytes "#000088"; content = bytes "#444444" };
}

abbrev set : List (Option OverlayEffect)
set = some rain ∷ some thunder ∷ []

build_last_example :
    let b = set_all (builder_new theme) set in
    ((s : Settings.Settings) × (build b day true ≡ ok s)
      × IsPayload theme.day (some thunder) true s)
    × ((s : Settings.Settings) × (build b night true ≡ ok s)
        × IsPayload theme.night (some thunder) true s)
unfolding last_of
build_last_example = build_last theme set true

abbrev poisoned_builder : Builder
poisoned_builder = record { theme = theme; overlay = record { value = none; is_poisoned = true } }

abbrev two_colors : TextContent
two_colors = fragments (
    record { text = bytes "1"; color = bytes "FF0000" }
    ∷ record { text = []; color = bytes "00FF00" }
    ∷ [])

decode_text-encode_text_example : decode_text (encode_text two_colors) ≡ some (written two_colors)
decode_text-encode_text_example = decode_text-encode_text two_colors
