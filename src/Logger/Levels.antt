-- ===== src/Logger/Levels.antt =====
-- src/logger/mod.rs: the filters, and the levels of records.
use awtrix_controller.Prelude.{ℕ, ◌≡◌, arith, leb}
use awtrix_controller.Prelude.Int.{ℤ, pos, negsuc, leb_ℤ}
use awtrix_controller.Logger.{LevelFilter, filter_for_slog_level}

-- The levels of a record, with slog's numbers.
pub data Level : Type 0 where
  debug info warn error : Level

abbrev pub slog_number : Level → ℤ
slog_number Level.debug = negsuc 3
slog_number Level.info = pos 0
slog_number Level.warn = pos 4
slog_number Level.error = pos 8

-- How severe a record is, and what a filter asks for.
abbrev pub severity : Level → ℕ
severity Level.debug = 0
severity Level.info = 1
severity Level.warn = 2
severity Level.error = 3

abbrev pub least : LevelFilter → ℕ
least LevelFilter.debug = 0
least LevelFilter.info = 1
least LevelFilter.warn = 2
least LevelFilter.error = 3
least LevelFilter.off = 4

-- A record is let through by the filter of a threshold exactly when slog would have written it: when
-- its level's number is not below the threshold.
pub filter_for_slog_level-passes :
    (threshold : ℤ) (level : Level)
    → leb (least (filter_for_slog_level threshold)) (severity level)
      ≡ leb_ℤ threshold (slog_number level)
unfolding filter_for_slog_level
filter_for_slog_level-passes threshold Level.debug = ground arith
filter_for_slog_level-passes threshold Level.info = ground arith
filter_for_slog_level-passes threshold Level.warn = ground arith
filter_for_slog_level-passes threshold Level.error = ground arith
