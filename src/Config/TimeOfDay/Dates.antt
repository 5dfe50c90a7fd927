-- ===== src/Config/TimeOfDay/Dates.antt =====
-- src/config/time_of_day.rs: exactly the texts that are read as a month and a day.
use awtrix_controller.Prelude.{
  ap, ◌+◌, ℕ, suc, zero, ◌<◌, ◌≤◌, ◌≡◌, refl, sym, ◌∙◌, ◌↔◌, inl, inr, ◌∷◌, ◌++◌, ◌&&◌, ◌||◌, true,
  false, List, Option, none, some, [], arith, ltb, ◌==◌, all, length, if◌then◌else◌, Bool-cases,
  Option-cases, Result, ok, err,
}
use mathlib.Core.Path.{subst}
use mathlib.Core.Option.{some-injective, none-ne-some}
use awtrix_controller.Prelude.Text.{Text, is_ascii_digit}
use awtrix_controller.Config.TimeOfDay.{
  MonthDay, ParseError, invalid_date, is_two_digits, split_once, parse_u8, two_digits, get,
  days_in_month, month_index, date_of_parts, date_from_str,
}
use awtrix_controller.Config.TimeOfDay.Digits.{
  is_two_digits-eq, split_once_lem, split_once_digits, two_digits-is_two_digits,
  parse_u8-two_digits,
}

ok≢err : {E A : Type 0} (a : A) (e : E) → err e ≡ ok a → ⊥
ok≢err a e h = cc

ok-injective : (a b : MonthDay) → ◌≡◌ {A = Result ParseError MonthDay} (ok a) (ok b) → a ≡ b
ok-injective a b h = cc

get-length : (l : List ℕ) (i x : ℕ) → get l i ≡ some x → i < length l
unfolding get
get-length [] i x h = absurd (none-ne-some x h)
get-length (y ∷ l) zero x h = ground arith
get-length (y ∷ l) (suc i) x h = let ih = get-length l i x h in ground (arith, ih)

-- The days of a month in a leap year: 29 in February, 30 in April, June, September and November.
abbrev pub last_day : ℕ → ℕ
last_day m = if m == 2 then 29 else if (m == 4) || (m == 6) || (m == 9) || (m == 11) then 30 else 31

same_month : (m n : ℕ) → m ≡ n → ◌≡◌ {A = Option ℕ} (some (last_day m)) (some (last_day n))
same_month m n e = ap (λ k. some (last_day k)) e

-- The days of consecutive months.
unfoldable days_from : ℕ → ℕ → List ℕ
days_from zero m = []
days_from (suc k) m = last_day m ∷ days_from k (suc m)

get-days_from : (k m i : ℕ) → i < k → get (days_from k m) i ≡ some (last_day (i + m))
unfolding get days_from
get-days_from zero m i h = absurd (ground arith)
get-days_from (suc k) m zero h = same_month m (0 + m) (omega arith)
get-days_from (suc k) m (suc i) h =
    get-days_from k (suc m) i (ground arith) ∙ same_month (i + suc m) (suc i + m) (omega arith)

days_of_month : (i : ℕ) → i < 12 → get days_in_month i ≡ some (last_day (suc i))
unfolding days_from
days_of_month i h = get-days_from 12 1 i h ∙ same_month (i + 1) (suc i) (omega arith)

abbrev pub IsDate : MonthDay → Type 0
IsDate t = (1 ≤ t.month) × (t.month ≤ 12) × (1 ≤ t.day) × (t.day ≤ last_day t.month)

-- The month has its days in the table.
month_days :
    (m days : ℕ)
    → get days_in_month (month_index m) ≡ some days
    → (1 ≤ m) × (m ≤ 12) × (days ≡ last_day m)
month_days zero days h =
    let l = get-length days_in_month 18446744073709551615 days h in absurd (ground (arith, l))
month_days (suc m) days h =
    let l = get-length days_in_month m days h in
    let l' : m < 12 = ground (arith, l) in
    (
      ground arith,
      ground arith,
      some-injective days (last_day (suc m)) (sym h ∙ days_of_month m l'),
    )

-- What follows the table.
in_month :
    (m d days : ℕ) (e : ParseError)
    → 1 ≤ d
    → d ≤ days
    → if◌then◌else◌ {A = Result ParseError MonthDay}
        ((d == 0) || ltb days d)
        (err e)
        (ok (record { month = m; day = d }))
      ≡ ok (record { month = m; day = d })
in_month m d days e l l' = ground arith

in_month_ok :
    (m d days : ℕ) (e : ParseError) (t : MonthDay)
    → if◌then◌else◌ {A = Result ParseError MonthDay}
        ((d == 0) || ltb days d)
        (err e)
        (ok (record { month = m; day = d }))
      ≡ ok t
    → (1 ≤ d) × (d ≤ days) × (t ≡ record { month = m; day = d })
in_month_ok m d days e t h = elim (Bool-cases ((d == 0) || ltb days d)) [
  | inl b ↦ absurd (ok≢err t e (rw b at h))
  | inr b ↦ (ground arith, ground arith, sym (ok-injective _ t (rw b at h)))
]

date_of_parts_err :
    (e : ParseError) (m d : Text)
    → (is_two_digits m && is_two_digits d) ≡ false
    → date_of_parts e m d ≡ err e
unfolding date_of_parts
date_of_parts_err e m d k = ground arith

date_of_parts_get :
    (e : ParseError) (m d : Text) (n k : ℕ)
    → is_two_digits m ≡ true
    → is_two_digits d ≡ true
    → parse_u8 m ≡ some n
    → parse_u8 d ≡ some k
    → date_of_parts e m d ≡ elim (get days_in_month (month_index n)) [
      | none ↦ err e
      | some days ↦ if (k == 0) || ltb days k then err e else ok (record { month = n; day = k })
    ]
unfolding date_of_parts
date_of_parts_get e m d n k p q r s = rw (p, date_of_parts) (rw q (rw r (rw s refl)))

date_from_str_split :
    (s m d : Text)
    → split_once b'-' s ≡ some (m, d)
    → date_from_str s ≡ date_of_parts (invalid_date s) m d
unfolding date_from_str
date_from_str_split s m d e = rw (e, date_from_str) refl

unsplit : (s : Text) → split_once b'-' s ≡ none → date_from_str s ≡ err (invalid_date s)
unfolding date_from_str
unsplit s q = rw (q, date_from_str) refl

joined : (s m d m' d' : Text) → s ≡ m ++ b'-' ∷ d → m ≡ m' → d ≡ d' → s ≡ m' ++ b'-' ∷ d'
joined s m d m' d' e p q = rw (e, p, q) refl

-- The two parts that are read, and what they mean.
dates_parts :
    (s m d : Text) (t : MonthDay)
    → split_once b'-' s ≡ some (m, d)
    → date_of_parts (invalid_date s) m d ≡ ok t
    → IsDate t × (s ≡ two_digits t.month ++ b'-' ∷ two_digits t.day)
dates_parts s m d t q r = elim (Bool-cases (is_two_digits m && is_two_digits d)) [
  | inr b ↦ absurd (ok≢err t (invalid_date s) (sym (date_of_parts_err (invalid_date s) m d b) ∙ r))
  | inl b ↦
      let month_ok : is_two_digits m ≡ true = ground arith in
      let day_ok : is_two_digits d ≡ true = ground arith in
      let (n, _, p, e) = is_two_digits-eq m month_ok in
      let (k, _, p', e') = is_two_digits-eq d day_ok in
      let r' = sym (date_of_parts_get (invalid_date s) m d n k month_ok day_ok p p') ∙ r in
      elim (Option-cases (get days_in_month (month_index n))) [
        | inl g ↦ absurd (ok≢err t (invalid_date s) (rw g at r'))
        | inr (days, g) ↦
            let (l, l', z) = month_days n days g in
            let (a, c, u) = in_month_ok n k days (invalid_date s) t (rw g at r') in
            subst (λ t'. IsDate t' × (s ≡ two_digits t'.month ++ b'-' ∷ two_digits t'.day)) (sym u)
              (
                (l, l', a, subst (λ x. k ≤ x) z c),
                joined s m d _ _ (split_once_lem b'-' s m d q) e e',
              )
      ]
]

date_from_str-IsDate :
    (s : Text) (t : MonthDay)
    → date_from_str s ≡ ok t
    → IsDate t × (s ≡ two_digits t.month ++ b'-' ∷ two_digits t.day)
date_from_str-IsDate s t r = elim (Option-cases (split_once b'-' s)) [
  | inl q ↦ absurd (ok≢err t (invalid_date s) (sym (unsplit s q) ∙ r))
  | inr ((m, d), q) ↦ dates_parts s m d t q (sym (date_from_str_split s m d q) ∙ r)
]

table_month : (m : ℕ) → 1 ≤ m → m ≤ 12 → get days_in_month (month_index m) ≡ some (last_day m)
table_month zero l l' = absurd (ground arith)
table_month (suc m) l l' = days_of_month m (ground arith)

last_day_le : (m : ℕ) → last_day m ≤ 31
last_day_le m = ground arith

IsDate-date_from_str :
    (s : Text) (t : MonthDay)
    → IsDate t × (s ≡ two_digits t.month ++ b'-' ∷ two_digits t.day)
    → date_from_str s ≡ ok t
IsDate-date_from_str s t ((l, l', a, c), e) =
    let small : t.day < 100 = let b = last_day_le t.month in omega (arith, b, c) in
    let m = two_digits t.month in
    let d = two_digits t.day in
    let month_ok = two_digits-is_two_digits t.month (omega arith) in
    let day_ok = two_digits-is_two_digits t.day small in
    let digits : all is_ascii_digit m ≡ true = ground (arith, month_ok) in
    let split = split_once_digits b'-' m d refl digits in
    date_from_str_split s m d (rw e split)
    ∙ date_of_parts_get (invalid_date s) m d t.month t.day month_ok day_ok
        (parse_u8-two_digits t.month (omega arith)) (parse_u8-two_digits t.day small)
    ∙ rw (table_month t.month l l') (in_month t.month t.day (last_day t.month) (invalid_date s) a c)

-- The texts that are read as a date are the days of a leap year printed as `MM-DD`; each is read as
-- the month and the day that it prints.
pub date_from_str_iff :
    (s : Text) (t : MonthDay)
    → (date_from_str s ≡ ok t) ↔ (IsDate t × (s ≡ two_digits t.month ++ b'-' ∷ two_digits t.day))
date_from_str_iff s t = (date_from_str-IsDate s t, IsDate-date_from_str s t)
