-- ===== src/Tests/Flags.antt =====
-- Runs of the flags, the numbers and the logger's levels.
use awtrix_controller.Prelude.{◌≡◌, ◌↔◌, none, some, [], arith, leb, ok}
use awtrix_controller.Prelude.Int.{pos, negsuc, leb_ℤ}
use awtrix_controller.Prelude.Decimal.{show_ℤ}
use awtrix_controller.Config.Lenient.{parse_int_base0}
use awtrix_controller.Cli.{TestNotificationArgs, notification}
use awtrix_controller.Cli.Flags.{parse_go_int}
use awtrix_controller.Cli.Flags.Decimals.{integers-show_ℤ}
use awtrix_controller.Cli.Given.{no_args, notification-no_args}
use awtrix_controller.Logger.{filter_for_slog_level}
use awtrix_controller.Logger.Levels.{
  Level, slog_number, severity, least, filter_for_slog_level-passes,
}

integers-show_ℤ_example :
    (parse_int_base0 (show_ℤ (negsuc 41)) ≡ some (negsuc 41))
    × (parse_go_int (show_ℤ (negsuc 41)) ≡ ok (negsuc 41))
integers-show_ℤ_example = integers-show_ℤ (negsuc 41) (omega arith) (omega arith)

-- An empty text is a given flag.
abbrev empty_text : TestNotificationArgs
empty_text = record no_args { text = some [] }

notification-no_args_example : (notification empty_text ≡ none) ↔ (empty_text ≡ no_args)
notification-no_args_example = notification-no_args empty_text

filter_for_slog_level-passes_example :
    leb (least (filter_for_slog_level (pos 2))) (severity Level.info)
    ≡ leb_ℤ (pos 2) (slog_number Level.info)
filter_for_slog_level-passes_example = filter_for_slog_level-passes (pos 2) Level.info
