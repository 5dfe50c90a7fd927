-- ===== src/Clock.antt =====
-- src/clock/mod.rs: local dates and wall-clock times as instants.
use awtrix_controller.Prelude.{ℕ, suc, zero, Option, none, some, ltb, unwrap_or, if◌then◌else◌}
use awtrix_controller.Instants.{Timestamp}

-- A jiff `Date` is the number of days since `Date::MIN`, a civil `Time` the minutes since midnight.
abbrev pub Date : Type 0
Date = ℕ

abbrev pub Time : Type 0
Time = ℕ

-- What jiff knows of one time zone, and the ends of its ranges.
pub record Calendar : Type 0 where
  pub last_date : Date
  pub last_instant : Timestamp
  -- `to_zoned(zone).date()`.
  pub local_date : Timestamp → Date
  -- `zone.to_ambiguous_zoned(date.to_datetime(time)).compatible()`, `none` for its error.
  pub compatible : Date → Time → Option Timestamp
  -- `saturating_add(1.day())`.
  pub one_day_later : Timestamp → Option Timestamp

-- `Date::yesterday` and `Date::tomorrow`, which fail past the ends of the range.
abbrev pub yesterday : Date → Option Date
yesterday zero = none
yesterday (suc d) = some d

abbrev pub tomorrow : Calendar → Date → Option Date
tomorrow cal d = if ltb d cal.last_date then some (suc d) else none

abbrev pub resolve_local : Calendar → Date → Time → Option Timestamp
resolve_local cal date time = cal.compatible date time

-- `and_then`.
abbrev pub and_then {ℓ κ} : {A : Type ℓ} {B : Type κ} → Option A → (A → Option B) → Option B
and_then none f = none
and_then (some a) f = f a

unfoldable pub next_local_midnight : Calendar → Timestamp → Timestamp
next_local_midnight cal instant =
    unwrap_or (and_then (tomorrow cal (cal.local_date instant)) (λ d. resolve_local cal d 0))
      (unwrap_or (cal.one_day_later instant) cal.last_instant)
