-- ===== src/Notification/Jobs.antt =====
-- src/notification/mod.rs: the jobs of the configured entries, and what one publishes. The warnings are
-- left out, and an action publishes to each device whatever became of the publishes before.
pub mod Planned
use awtrix_controller.Prelude.{
  ℕ, suc, zero, ◌-◌, ◌∷◌, ◌++◌, ◌&&◌, not, Bool, true, false, Option, none, some, List, [], map,
  leb, ◌==◌, length, filter_map, if◌then◌else◌, Result, ok, err,
}
use awtrix_controller.Prelude.Int.{ℤ, pos, negsuc}
use awtrix_controller.Prelude.Text.{Text, bytes, same}
use awtrix_controller.Prelude.Decimal.{show_ℤ}
use awtrix_controller.Instants.{Timestamp}
use awtrix_controller.Clock.{Time, Calendar}
use awtrix_controller.Config.TimeOfDay.{MonthDay, ParseError, date_from_str}
use awtrix_controller.Config.Sections
use awtrix_controller.Config.Sections.{ScheduledNotificationConfig, Repeat}
use awtrix_controller.Model.Payload
use awtrix_controller.Model.Payload.{Notification, default_notification, default_content}
use awtrix_controller.Notification.{fire_time, next_daily_occurrence, next_weekly_occurrence}
use awtrix_controller.Notification.Months.{Civil, next_monthly_occurrence, next_yearly_occurrence}

-- A weekday is a number, from Monday as 0.
pub data Schedule : Type 0 where
  daily : Schedule
  weekly : ℕ → Schedule
  monthly : ℕ → Schedule
  yearly : MonthDay → Schedule

-- `i8::try_from`, and `1..=31`.
abbrev pub month_day : ℤ → Option ℕ
month_day (negsuc n) = none
month_day (pos n) = if leb n 127 && (leb 1 n && leb n 31) then some n else none

abbrev pub one_job : {A : Type 0} → Option A → (A → Schedule) → Text → List (Text × Schedule)
one_job none f job = []
one_job (some a) f job = (job, f a) ∷ []

abbrev pub ok_date : Result ParseError MonthDay → Option MonthDay
ok_date (ok d) = some d
ok_date (err e) = none

-- The closure given to `filter_map`.
abbrev pub named_job : Text → Text → Result Text ℕ → Option (Text × Schedule)
named_job job name (ok weekday) = some (job ++ (b':' ∷ name), weekly weekday)
named_job job name (err _) = none

-- `str::to_lowercase` goes by Unicode's tables.
module _ (to_lowercase : Text → Text) where
  -- The error is the name.
  unfoldable pub parse_weekday : Text → Result Text ℕ
  parse_weekday name =
      let lower = to_lowercase name in
      if same lower (bytes "monday")
      then ok 0
      else if same lower (bytes "tuesday")
      then ok 1
      else if same lower (bytes "wednesday")
      then ok 2
      else if same lower (bytes "thursday")
      then ok 3
      else if same lower (bytes "friday")
      then ok 4
      else if same lower (bytes "saturday")
      then ok 5
      else if same lower (bytes "sunday")
      then ok 6
      else err name

  abbrev pub weekday_job : Text → Text → Option (Text × Schedule)
  weekday_job job name = named_job job name (parse_weekday name)

  -- The `match` on the repetition.
  unfoldable pub schedules_of : ScheduledNotificationConfig → Repeat → Text → List (Text × Schedule)
  schedules_of entry Repeat.daily job = (job, daily) ∷ []
  schedules_of entry Repeat.weekly job = filter_map (weekday_job job) entry.weekdays
  schedules_of entry Repeat.monthly job = one_job (month_day entry.day) monthly job
  schedules_of entry Repeat.yearly job = one_job (ok_date (date_from_str entry.date)) yearly job

  unfoldable pub schedules : ScheduledNotificationConfig → List (Text × Schedule)
  schedules entry = schedules_of entry entry.repeat (bytes "scheduled:" ++ entry.name)

  -- `monday` is the weekday of the calendar's first date.
  module _ (cal : Calendar) (civil : Civil) (monday : ℕ) where
    unfoldable pub next_occurrence : Schedule → Timestamp → Time → Timestamp
    next_occurrence daily from time = next_daily_occurrence cal from time
    next_occurrence (weekly weekday) from time = next_weekly_occurrence cal monday from weekday time
    next_occurrence (monthly day) from time = next_monthly_occurrence civil cal from day time
    next_occurrence (yearly date) from time = next_yearly_occurrence civil cal from date time

    -- A job given to the scheduler: its name, its entry, when it fires first and how it goes on.
    abbrev pub Planned : Type 0
    Planned = Text × ScheduledNotificationConfig × Timestamp × (Timestamp → Timestamp)

    abbrev pub plan : ScheduledNotificationConfig → Timestamp → Time → Text × Schedule → Planned
    plan entry now time (job, schedule) = (
      job,
      entry,
      next_occurrence schedule now time,
      λ fired. next_occurrence schedule fired time,
    )

    -- The body of the loop of `start`.
    unfoldable pub entry_jobs : Timestamp → ScheduledNotificationConfig → List Planned
    entry_jobs now entry = if not entry.enabled then [] else elim (fire_time entry.time) [
      | none ↦ []
      | some time ↦ map (plan entry now time) (schedules entry)
    ]

    unfoldable pub start : Timestamp → List ScheduledNotificationConfig → List Planned
    start now [] = []
    start now (entry ∷ entries) = entry_jobs now entry ++ start now entries

abbrev pub starts_with : Text → Text → Bool
starts_with [] s = true
starts_with (p ∷ pattern) [] = false
starts_with (p ∷ pattern) (c ∷ s) = p == c && starts_with pattern s

-- `str::replace` of a pattern that is not empty; `skip` bytes of a match are still to be passed over.
unfoldable pub replace_from : Text → Text → ℕ → Text → Text
replace_from pattern new skip [] = []
replace_from pattern new (suc skip) (c ∷ s) = replace_from pattern new skip s
replace_from pattern new zero (c ∷ s) =
    let matched = new ++ replace_from pattern new (length pattern - 1) s in
    let unmatched = c ∷ replace_from pattern new zero s in
    if starts_with pattern (c ∷ s) then matched else unmatched

abbrev pub replace : Text → Text → Text → Text
replace pattern new s = replace_from pattern new 0 s

abbrev pub template : ScheduledNotificationConfig → Text → Text
template entry [] = entry.name
template entry (c ∷ message) = c ∷ message

unfoldable pub format_message : ScheduledNotificationConfig → ℤ → Text
format_message entry year =
    replace (bytes "{year}") (show_ℤ year)
      (replace (bytes "{name}") entry.name (template entry entry.message))

unfoldable pub build_notification : ScheduledNotificationConfig → ℤ → Notification
build_notification entry year = record default_notification {
  content = record default_content {
    text = some (Payload.plain (format_message entry year));
    icon = entry.icon;
    duration = entry.duration;
    rainbow = entry.rainbow;
    scroll_speed = entry.scroll_speed;
  };
  rtttl = entry.rtttl;
  wakeup = entry.wakeup;
}

-- What an action publishes, to whom, at a year of its zone.
unfoldable pub action : ScheduledNotificationConfig → ℤ → List Text → List (Text × Notification)
action entry year clients = map (λ client_id. (client_id, build_notification entry year)) clients
