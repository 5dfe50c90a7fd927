-- ===== src/Notification.antt =====
-- src/notification/mod.rs: when a scheduled notification fires, daily and weekly. The children have the
-- monthly and yearly schedules (`Months`) and the jobs with what they publish (`Jobs`).
pub mod First
pub mod Months
pub mod Jobs
use awtrix_controller.Prelude.{
  ℕ, ◌+◌, ◌-◌, ◌*◌, ◌%◌, ◌∷◌, Bool, true, false, Option, none, some, List, [], ltb, leb, find,
  filter_map, unwrap_or, if◌then◌else◌, Result, ok, err, map_err,
}
use awtrix_controller.Prelude.Text.{Text}
use awtrix_controller.Instants.{Timestamp}
use awtrix_controller.Clock.{Date, Time, Calendar, tomorrow, and_then, resolve_local}
use awtrix_controller.Config.TimeOfDay.{TimeOfDay, time_from_str}

-- `Option::ok` of a parse, and the civil time of a time of day, whose parts are in range.
abbrev ok_time : {E : Type 0} → Result E TimeOfDay → Option Time
ok_time (err e) = none
ok_time (ok t) = some (t.hour * 60 + t.minute)

-- The time of an entry; an empty one is midnight.
unfoldable pub fire_time : Text → Option Time
fire_time [] = some 0
fire_time (c ∷ s) = ok_time (time_from_str (c ∷ s))

abbrev pub present : Option Date → Option Date
present o = o

-- Weekdays go round in sevens, from Monday as 0; `monday` is the weekday of the first date.
abbrev pub weekday_of : ℕ → Date → ℕ
weekday_of monday d = (monday + d) % 7

-- The Euclidean remainder of the difference of two weekdays.
abbrev pub days_until : ℕ → ℕ → ℕ
days_until weekday today = (weekday + 7 - today) % 7

module _ (cal : Calendar) where
  unfoldable pub first_after : Timestamp → Time → List (Option Date) → Option Timestamp
  first_after from time dates =
      find (λ candidate. ltb from candidate)
        (filter_map (λ date. resolve_local cal date time) (filter_map present dates))

  -- `Timestamp::MAX` is the calendar's last instant.
  unfoldable pub next_daily_occurrence : Timestamp → Time → Timestamp
  next_daily_occurrence from time =
      let today = cal.local_date from in
      unwrap_or (first_after from time (some today ∷ tomorrow cal today ∷ [])) cal.last_instant

  -- `Date::checked_add` of a number of days.
  abbrev pub add_days : Date → ℕ → Option Date
  add_days d n = if leb (d + n) cal.last_date then some (d + n) else none

  unfoldable pub next_weekly_occurrence : ℕ → Timestamp → ℕ → Time → Timestamp
  next_weekly_occurrence monday from weekday time =
      let today = cal.local_date from in
      let this_week = add_days today (days_until weekday (weekday_of monday today)) in
      let next_week = and_then this_week (λ date. add_days date 7) in
      unwrap_or (first_after from time (this_week ∷ next_week ∷ [])) cal.last_instant
