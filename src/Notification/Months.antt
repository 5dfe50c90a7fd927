-- ===== src/Notification/Months.antt =====
-- src/notification/mod.rs: the monthly and yearly occurrences, over what jiff knows of civil dates.
pub mod First
use awtrix_controller.Prelude.{
  ℕ, suc, ◌∷◌, Option, none, some, [], ltb, leb, unwrap_or, if◌then◌else◌,
}
use awtrix_controller.Prelude.Int.{ℤ, pos, ◌+ℤ◌, ltb_ℤ, sub_ℕ}
use awtrix_controller.Instants.{Timestamp}
use awtrix_controller.Clock.{Date, Time, Calendar, and_then}
use awtrix_controller.Config.TimeOfDay.{MonthDay}
use awtrix_controller.Notification.{first_after}

-- The months of jiff's `civil::Date`.
pub record Civil : Type 0 where
  pub year : Date → ℤ
  pub first_of_month : Date → Date
  pub days_in_month : Date → ℕ
  -- `checked_add(Span::new().months(1)).ok()`, of a first of a month.
  pub next_month : Date → Option Date
  -- `Date::new(year, month, 1).ok()`.
  pub first_of : ℤ → ℕ → Option Date
  -- `with().day(day).build().ok()`.
  pub with_day : Date → ℕ → Option Date

-- `day.clamp(1, last)`.
abbrev pub clamp_day : ℕ → ℕ → ℕ
clamp_day day last = if ltb day 1 then 1 else if ltb last day then last else day

-- `i16::checked_add(1)`.
abbrev pub next_year : ℤ → Option ℤ
next_year y = if ltb_ℤ (y +ℤ pos 1) (pos 32768) then some (y +ℤ pos 1) else none

module _ (civil : Civil) where
  unfoldable pub clamped : Date → ℕ → Date
  clamped first_of_month day =
      unwrap_or (civil.with_day first_of_month (clamp_day day (civil.days_in_month first_of_month)))
        first_of_month

  abbrev pub clamp_in : ℕ → Option Date → Option Date
  clamp_in day none = none
  clamp_in day (some month) = some (clamped month day)

  unfoldable pub next_monthly_occurrence : Calendar → Timestamp → ℕ → Time → Timestamp
  next_monthly_occurrence cal from day time =
      let first_of_month = civil.first_of_month (cal.local_date from) in
      let following = civil.next_month first_of_month in
      unwrap_or
        (first_after cal from time
          (clamp_in day (some first_of_month) ∷ clamp_in day following ∷ []))
        cal.last_instant

  -- The closure `in_year`; the month and the day of a `MonthDay` fit an `i8`.
  abbrev pub in_year : MonthDay → Option ℤ → Option Date
  in_year date none = none
  in_year date (some year) = clamp_in date.day (civil.first_of year date.month)

  unfoldable pub next_yearly_occurrence : Calendar → Timestamp → MonthDay → Time → Timestamp
  next_yearly_occurrence cal from date time =
      let year = civil.year (cal.local_date from) in
      unwrap_or
        (first_after cal from time (in_year date (some year) ∷ in_year date (next_year year) ∷ []))
        cal.last_instant
