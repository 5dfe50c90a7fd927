-- ===== src/Tests/Calendars.antt =====
-- A zone without clock changes, and a year of twelve months of thirty days.
use awtrix_controller.Prelude.{
  ℕ, ◌+◌, ◌-◌, ◌*◌, ◌/◌, ◌<◌, ◌≤◌, ◌≡◌, sym, ◌&&◌, some, none, arith, ltb, leb, if◌then◌else◌,
  Option,
}
use mathlib.Core.Option.{some-injective}
use awtrix_controller.Prelude.Int.{pos, pos_part}
use awtrix_controller.Clock.{Calendar, Date, Time, resolve_local}
use awtrix_controller.Instants.{Timestamp}
use awtrix_controller.EnergySaving.Active.{IsOrdinary}
use awtrix_controller.Notification.Months.{Civil}
use awtrix_controller.Notification.Months.First.{IsCivil}

abbrev pub at : Date → Time → Timestamp
at d m = d * 86400000000000 + m * 60000000000

abbrev pub resolved : Date → Time → Option Timestamp
resolved d m = if ltb m 1440 then some (at d m) else none

abbrev pub utc : Calendar
utc = record {
  last_date = 4000000;
  last_instant = 345600000000000000000;
  local_date = λ t. t / 86400000000000;
  compatible = resolved;
  one_day_later = λ t. some (t + 86400000000000);
}

pub utc-IsOrdinary : IsOrdinary utc
utc-IsOrdinary = record {
  local_mono = λ t t' h. omega arith;
  not_before = not_before;
  not_after = not_after;
}
  where
    not_before :
        (d : Date) (m : Time) (i : Timestamp)
        → resolve_local utc d m ≡ some i
        → d ≤ i / 86400000000000
    not_before d m i h = ground arith

    not_after :
        (d : Date) (m : Time) (i t : Timestamp)
        → resolve_local utc d m ≡ some i
        → t < i
        → t / 86400000000000 ≤ d
    not_after d m i t h l = ground arith

abbrev pub even_months : Civil
even_months = record {
  year = λ d. pos (d / 360);
  first_of_month = λ d. d / 30 * 30;
  days_in_month = λ _. 30;
  next_month = λ d. some (d + 30);
  first_of = λ y m. some (pos_part y * 360 + (m - 1) * 30);
  with_day = λ d k. if leb 1 k && leb k 30 then some (d + k - 1) else none;
}

pub even_months-IsCivil : IsCivil even_months
even_months-IsCivil = record {
  first_le = λ d. omega arith;
  before_end = λ d. omega arith;
  same_month = λ d x h l. omega arith;
  follows = follows;
  day_of = day_of;
}
  where
    follows :
        (d n : Date)
        → ◌≡◌ {A = Option ℕ} (some (d / 30 * 30 + 30)) (some n)
        → (n ≡ d / 30 * 30 + 30) × (n / 30 * 30 ≡ n)
    follows d n h =
        let e : d / 30 * 30 + 30 ≡ n = some-injective (d / 30 * 30 + 30) n h in
        (sym e, omega (arith, e))

    day_of :
        (d : Date) (day : ℕ)
        → 1 ≤ day
        → day ≤ 30
        → (if leb 1 day && leb day 30 then some (d / 30 * 30 + day - 1) else none)
          ≡ some (d / 30 * 30 + day - 1)
    day_of d day h l = ground arith
