-- ===== src/Notification/Months/First.antt =====
-- src/notification/mod.rs: the monthly occurrence after an instant.
use awtrix_controller.Prelude.{
  ℕ, ◌+◌, ◌-◌, ◌<◌, ◌≤◌, ◌≡◌, sym, ap, ◌∙◌, ◌⊎◌, inl, inr, some, arith, leb, ltb, refl, Bool-cases,
}
use awtrix_controller.Instants.{Timestamp}
use awtrix_controller.Clock.{Date, Time, Calendar, resolve_local}
use awtrix_controller.EnergySaving.Active.{IsOrdinary}
use awtrix_controller.Notification.First.{
  first_of_two, taken_after, taken_is, not_past, later_after, taken_first,
}
use awtrix_controller.Notification.Months.{Civil, clamp_day, clamped, next_monthly_occurrence}

-- The months follow one another without a gap, and each date is in one.
pub record IsCivil (civil : Civil) : Type 0 where
  pub first_le : (d : Date) → civil.first_of_month d ≤ d
  pub before_end :
      (d : Date) → d < civil.first_of_month d + civil.days_in_month (civil.first_of_month d)
  pub same_month :
      (d x : Date)
      → civil.first_of_month d ≤ x
      → x < civil.first_of_month d + civil.days_in_month (civil.first_of_month d)
      → civil.first_of_month x ≡ civil.first_of_month d
  pub follows :
      (d n : Date)
      → civil.next_month (civil.first_of_month d) ≡ some n
      → (n ≡ civil.first_of_month d + civil.days_in_month (civil.first_of_month d))
        × (civil.first_of_month n ≡ n)
  pub day_of :
      (d : Date) (day : ℕ)
      → 1 ≤ day
      → day ≤ civil.days_in_month (civil.first_of_month d)
      → civil.with_day (civil.first_of_month d) day ≡ some (civil.first_of_month d + day - 1)

clamp_day_bounds :
    (day last : ℕ) → 1 ≤ last → (1 ≤ clamp_day day last) × (clamp_day day last ≤ last)
clamp_day_bounds day last h = ground arith

module _ (civil : Civil) (laws : IsCivil civil) where
  first_of_first :
      (d : Date) → civil.first_of_month (civil.first_of_month d) ≡ civil.first_of_month d
  first_of_first d =
      let low = laws.first_le d in
      let high = laws.before_end d in
      laws.same_month d (civil.first_of_month d) (omega arith) (omega (arith, low, high))

  -- A date from the first of a month on is of that month, or its month begins after that one.
  later_month :
      (d x : Date)
      → civil.first_of_month d ≤ x
      → (civil.first_of_month x ≡ civil.first_of_month d)
        ⊎ (civil.first_of_month d + civil.days_in_month (civil.first_of_month d)
            ≤ civil.first_of_month x)
  later_month d x h =
      let m = civil.first_of_month d in
      let f = civil.first_of_month x in
      elim (Bool-cases (leb (m + civil.days_in_month m) f)) [
        | inl after ↦ inr (ground (arith, after))
        | inr before ↦ elim (Bool-cases (leb m f)) [
          | inl within ↦ inl (
              sym (first_of_first x)
              ∙ laws.same_month d f (ground (arith, within)) (ground (arith, before)))
          | inr earlier ↦
              let high = laws.before_end x in
              let same = laws.same_month x m (ground (arith, earlier)) (omega (arith, h, high)) in
              inl (sym same ∙ first_of_first d)
        ]
      ]

  -- The day of a month lies in it.
  clamped_within :
      (d : Date) (day : ℕ)
      → (civil.first_of_month d ≤ clamped civil (civil.first_of_month d) day)
        × (clamped civil (civil.first_of_month d) day
            < civil.first_of_month d + civil.days_in_month (civil.first_of_month d))
  unfolding clamped
  clamped_within d day =
      let m = civil.first_of_month d in
      let last = civil.days_in_month m in
      let low = laws.first_le d in
      let high = laws.before_end d in
      let (a, b) = clamp_day_bounds day last (omega (arith, low, high)) in
      let e = laws.day_of d (clamp_day day last) a b in
      rw e (omega (arith, a, b), omega (arith, a, b))

  clamped_lem :
      (d : Date) (day : ℕ)
      → clamped civil (civil.first_of_month d) day
        ≡ civil.first_of_month d + clamp_day day (civil.days_in_month (civil.first_of_month d)) - 1
  unfolding clamped
  clamped_lem d day =
      let low = laws.first_le d in
      let high = laws.before_end d in
      let last = civil.days_in_month (civil.first_of_month d) in
      let (a, b) = clamp_day_bounds day last (omega (arith, low, high)) in
      rw (laws.day_of d (clamp_day day last) a b) refl

-- The date is the day of its month with this number, or the month's last one when it has fewer days.
abbrev pub IsMonthDate : Civil → ℕ → Date → Type 0
IsMonthDate civil day x =
    let first = civil.first_of_month x in
    let len = civil.days_in_month first in
    ((day ≤ len) × (x ≡ first + day - 1)) ⊎ ((len < day) × (x ≡ first + len - 1))

IsMonthDate-clamped :
    (civil : Civil) (day : ℕ) (x : Date)
    → IsCivil civil
    → 1 ≤ day
    → IsMonthDate civil day x
    → x ≡ clamped civil (civil.first_of_month x) day
IsMonthDate-clamped civil day x laws some_day (inl (fits, e)) =
    e ∙ sym (clamped_lem civil laws x day ∙ ap (λ n. civil.first_of_month x + n - 1) (ground arith))
IsMonthDate-clamped civil day x laws some_day (inr (past, e)) =
    e ∙ sym (clamped_lem civil laws x day ∙ ap (λ n. civil.first_of_month x + n - 1) (ground arith))

-- In an ordinary zone (`IsOrdinary`), over months that follow one another (`IsCivil`), let `d` and `d'`
-- be the dates of a day of the month in the month of the given instant and in the next one, where a
-- day past the end of a month is its last day, and let the time of day resolve on both. The next
-- monthly occurrence is after the given instant, it is what the time of day resolves to on such a date
-- of its month, and no month has an occurrence after the instant that comes before it.
pub next_monthly_occurrence_first :
    (cal : Calendar) (civil : Civil) (from i j i' : Timestamp) (day : ℕ) (time : Time)
    (d d' x : Date)
    → IsOrdinary cal
    → IsCivil civil
    → 1 ≤ day
    → IsMonthDate civil day d
    → civil.first_of_month d ≡ civil.first_of_month (cal.local_date from)
    → IsMonthDate civil day d'
    → civil.next_month (civil.first_of_month (cal.local_date from)) ≡ some (civil.first_of_month d')
    → resolve_local cal d time ≡ some i
    → resolve_local cal d' time ≡ some j
    → IsMonthDate civil day x
    → resolve_local cal x time ≡ some i'
    → from < i'
    → let r = next_monthly_occurrence civil cal from day time in
      (from < r)
      × ((y : Date) × IsMonthDate civil day y × (resolve_local cal y time ≡ some r))
      × (r ≤ i')
unfolding next_monthly_occurrence
next_monthly_occurrence_first cal civil from i j i' day time d d' x ord laws some_day is_d same
      is_d' step h k is_x m l =
    let today = cal.local_date from in
    let next = civil.first_of_month d' in
    let d_date : d ≡ clamped civil (civil.first_of_month today) day =
      rw same at (IsMonthDate-clamped civil day d laws some_day is_d) in
    let d'_date = IsMonthDate-clamped civil day d' laws some_day is_d' in
    let x_date = IsMonthDate-clamped civil day x laws some_day is_x in
    let (next_eq, next_first) = laws.follows today next step in
    let today_end = laws.before_end today in
    let today_low = laws.first_le today in
    let (this_low, this_high) = clamped_within civil laws today day in
    let (next_low, next_high) = clamped_within civil laws d' day in
    let after =
      later_after cal ord time from j d' k (omega (arith, next_eq, today_end, next_low, d'_date)) in
    let past = not_past cal ord time from i' x m l in
    let x_low = laws.first_le x in
    let side : (x ≡ d) ⊎ (d' ≤ x) =
      elim (later_month civil laws today x (omega (arith, past, today_low))) [
        | inl this_month ↦ inl (x_date ∙ ap (λ f. clamped civil f day) this_month ∙ sym d_date)
        | inr far ↦ elim (later_month civil laws d' x (omega (arith, far, next_eq, x_low))) [
          | inl that_month ↦
              let e = x_date ∙ ap (λ f. clamped civil f day) that_month ∙ sym d'_date in
              inr (omega (arith, e))
          | inr farther ↦ inr (omega (arith, farther, next_high, x_low, d'_date))
        ]
      ] in
    let le : d ≤ x = elim side [
      | inl e ↦ omega (arith, e)
      | inr far ↦ omega (arith, far, this_high, next_low, next_eq, d_date, d'_date)
    ] in
    rw step (
      rw (sym d_date, sym d'_date)
        (rw (first_of_two cal from i j time d d' h k after) (
          taken_after from i j after,
          taken_is cal (IsMonthDate civil day) time i j (ltb from i) d d' is_d is_d' h k,
          taken_first cal ord time from i j i' d d' x h k m le side l,
        )))
