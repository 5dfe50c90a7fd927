-- ===== src/Notification/First.antt =====
-- src/notification/mod.rs: the daily and the weekly occurrence after an instant.
use awtrix_controller.Prelude.{
  ℕ, suc, Bool, false, ◌+◌, ◌<◌, ◌≤◌, ◌≡◌, sym, ap, ◌∙◌, ◌⊎◌, inl, inr, ◌∷◌, true, some, [], arith,
  ltb, leb, if◌then◌else◌, Bool-cases,
}
use mathlib.Core.Option.{some-injective}
use awtrix_controller.Instants.{Timestamp}
use awtrix_controller.Clock.{Date, Time, Calendar, resolve_local}
use awtrix_controller.EnergySaving.Active.{IsOrdinary}
use awtrix_controller.Notification.{
  first_after, next_daily_occurrence, next_weekly_occurrence, weekday_of, days_until,
}

-- Two dates that both resolve: the first unless it is not after `from`.
pub first_of_two :
    (cal : Calendar) (from i j : Timestamp) (time : Time) (d d' : Date)
    → resolve_local cal d time ≡ some i
    → resolve_local cal d' time ≡ some j
    → from < j
    → first_after cal from time (some d ∷ some d' ∷ []) ≡ some (if ltb from i then i else j)
unfolding first_after
first_of_two cal from i j time d d' h k l = rw (h, k) (ground (arith, l))

module _ (cal : Calendar) (ord : IsOrdinary cal) (time : Time) where
  -- An occurrence after an instant is on its date or later.
  pub not_past :
      (from i : Timestamp) (d : Date)
      → resolve_local cal d time ≡ some i
      → from < i
      → cal.local_date from ≤ d
  not_past from i d h l = ord.not_after d time i from h l

  -- A later date's occurrence is after the instant.
  pub later_after :
      (from i : Timestamp) (d : Date)
      → resolve_local cal d time ≡ some i
      → cal.local_date from < d
      → from < i
  later_after from i d h l = elim (Bool-cases (ltb from i)) [
    | inl b ↦ ground arith
    | inr b ↦
        let low = ord.not_before d time i h in
        let mono = ord.local_mono i from (ground arith) in absurd (omega (arith, low, mono, l))
  ]

  -- Occurrences come in the order of their dates.
  in_order :
      (d d' : Date) (i i' : Timestamp)
      → d ≤ d'
      → resolve_local cal d time ≡ some i
      → resolve_local cal d' time ≡ some i'
      → i ≤ i'
  in_order d d' i i' le h h' = elim (Bool-cases (ltb i' i)) [
    | inr b ↦ ground arith
    | inl b ↦
        let up = ord.not_after d time i i' h (ground arith) in
        let down = ord.not_before d' time i' h' in
        let same : d ≡ d' = omega (arith, le, up, down) in
        let eq = some-injective i i' (sym h ∙ ap (λ x. resolve_local cal x time) same ∙ h') in
        omega (arith, eq)
  ]

  -- Of two dates, the second later, the occurrence that is taken comes first among those of dates
  -- that are either the first one or not before the second.
  pub taken_first :
      (from i j i' : Timestamp) (d d' x : Date)
      → resolve_local cal d time ≡ some i
      → resolve_local cal d' time ≡ some j
      → resolve_local cal x time ≡ some i'
      → d ≤ x
      → (x ≡ d) ⊎ (d' ≤ x)
      → from < i'
      → (if ltb from i then i else j) ≤ i'
  taken_first from i j i' d d' x h k m le side l = elim (Bool-cases (ltb from i)) [
    | inl b ↦ rw b (in_order d x i i' le h m)
    | inr b ↦ elim side [
      | inl e ↦
          let eq = some-injective i i' (sym h ∙ ap (λ y. resolve_local cal y time) (sym e) ∙ m) in
          absurd (ground (arith, b, eq, l))
      | inr far ↦ rw b (in_order d' x j i' far k m)
    ]
  ]

pub taken_after : (from i j : Timestamp) → from < j → from < (if ltb from i then i else j)
taken_after from i j l = ground (arith, l)

-- Of two dates with a property that both resolve, the occurrence that is taken is of such a date.
pub taken_is :
    (cal : Calendar) (P : Date → Type 0) (time : Time) (i j : Timestamp) (b : Bool) (d d' : Date)
    → P d
    → P d'
    → resolve_local cal d time ≡ some i
    → resolve_local cal d' time ≡ some j
    → (y : Date) × P y × (resolve_local cal y time ≡ some (if b then i else j))
taken_is cal P time i j true d d' p p' h k = (d, p, h)
taken_is cal P time i j false d d' p p' h k = (d', p', k)

-- In an ordinary zone (`IsOrdinary`), and while today and tomorrow resolve, the next daily occurrence
-- is after the given instant, and no date has an occurrence after the instant that comes before it.
pub next_daily_occurrence_first :
    (cal : Calendar) (from i j i' : Timestamp) (time : Time) (x : Date)
    → IsOrdinary cal
    → cal.local_date from < cal.last_date
    → resolve_local cal (cal.local_date from) time ≡ some i
    → resolve_local cal (suc (cal.local_date from)) time ≡ some j
    → resolve_local cal x time ≡ some i'
    → from < i'
    → let next = next_daily_occurrence cal from time in (from < next) × (next ≤ i')
unfolding next_daily_occurrence
next_daily_occurrence_first cal from i j i' time x ord last h k m l =
    let today = cal.local_date from in
    let there : ltb today cal.last_date ≡ true = ground arith in
    let after = later_after cal ord time from j (suc today) k (omega arith) in
    let past = not_past cal ord time from i' x m l in
    rw there (
      rw (first_of_two cal from i j time today (suc today) h k after) (
        taken_after from i j after,
        taken_first cal ord time from i j i' today (suc today) x h k m past (split today x past) l,
      ))
  where
    split : (today x : ℕ) → today ≤ x → (x ≡ today) ⊎ (suc today ≤ x)
    split today x h = ground arith

days_until_lem :
    (monday today weekday x : ℕ)
    → weekday < 7
    → today ≤ x
    → weekday_of monday x ≡ weekday
    → let d = today + days_until weekday (weekday_of monday today) in
      (d ≤ x) × ((x ≡ d) ⊎ (d + 7 ≤ x))
days_until_lem monday today weekday x h l e =
    let low : today + days_until weekday (weekday_of monday today) ≤ x = omega arith in
    (
      low,
      elim (Bool-cases (ltb x (today + days_until weekday (weekday_of monday today) + 7))) [
        | inl b ↦ inl (near b)
        | inr b ↦ inr (ground arith)
      ],
    )
  where
    near :
        ltb x (today + days_until weekday (weekday_of monday today) + 7) ≡ true
        → x ≡ today + days_until weekday (weekday_of monday today)
    near b =
        let b' : x < today + days_until weekday (weekday_of monday today) + 7 = ground arith in
        omega arith

-- Of the seven dates from a date on, the one of a weekday.
days_until_only :
    (monday today weekday d : ℕ)
    → weekday < 7
    → today ≤ d
    → d < today + 7
    → weekday_of monday d ≡ weekday
    → today + days_until weekday (weekday_of monday today) ≡ d
days_until_only monday today weekday d small low high e =
    elim (days_until_lem monday today weekday d small low e).1 [
      | inl same ↦ sym same
      | inr far ↦ absurd (omega (arith, high, far))
    ]

weekday_again :
    (monday d weekday : ℕ) → weekday_of monday d ≡ weekday → weekday_of monday (d + 7) ≡ weekday
weekday_again monday d weekday e = omega arith

-- In an ordinary zone (`IsOrdinary`), let `d` be the date of a weekday among the seven from the local
-- date of an instant on, and let the time of day resolve on it and a week after. The next weekly
-- occurrence is after the given instant, it is what the time of day resolves to on a date of that
-- weekday, and no date of that weekday has an occurrence after the instant that comes before it.
pub next_weekly_occurrence_first :
    (cal : Calendar) (monday weekday : ℕ) (from i j i' : Timestamp) (time : Time) (d x : Date)
    → IsOrdinary cal
    → weekday < 7
    → cal.local_date from ≤ d
    → d < cal.local_date from + 7
    → d + 7 ≤ cal.last_date
    → weekday_of monday d ≡ weekday
    → resolve_local cal d time ≡ some i
    → resolve_local cal (d + 7) time ≡ some j
    → weekday_of monday x ≡ weekday
    → resolve_local cal x time ≡ some i'
    → from < i'
    → let next = next_weekly_occurrence cal monday from weekday time in
      (from < next)
      × ((y : Date) × (weekday_of monday y ≡ weekday) × (resolve_local cal y time ≡ some next))
      × (next ≤ i')
unfolding next_weekly_occurrence
next_weekly_occurrence_first cal monday weekday from i j i' time d x ord small low high last d_day h
      k e m l =
    let today = cal.local_date from in
    let coming = days_until_only monday today weekday d small low high d_day in
    let this : leb d cal.last_date ≡ true = ground arith in
    let next : leb (d + 7) cal.last_date ≡ true = ground arith in
    let after = later_after cal ord time from j (d + 7) k (omega (arith, high, low)) in
    let past = not_past cal ord time from i' x m l in
    let (le, side) = rw coming at (days_until_lem monday today weekday x small past e) in
    let week_after : weekday_of monday (d + 7) ≡ weekday = weekday_again monday d weekday d_day in
    rw coming (
      rw this (
        rw next (
          rw (first_of_two cal from i j time d (d + 7) h k after) (
            taken_after from i j after,
            taken_is cal (λ y. weekday_of monday y ≡ weekday) time i j (ltb from i) d (d + 7) d_day
                week_after h k,
            taken_first cal ord time from i j i' d (d + 7) x h k m le side l,
          ))))
