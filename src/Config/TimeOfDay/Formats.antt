-- ===== src/Config/TimeOfDay/Formats.antt =====
-- src/config/time_of_day.rs: exactly the texts that the two formats accept, and what they mean.
use awtrix_controller.Prelude.{
  ℕ, ◌+◌, ◌-◌, ◌/◌, ◌%◌, ◌<◌, ◌≡◌, refl, sym, ap, ◌∙◌, ◌↔◌, ◌⊎◌, inl, inr, ◌∷◌, ◌++◌, ◌&&◌, true,
  false, none, some, [], arith, ltb, all, Bool-cases, Option-cases, Result, ok, err, ok_or,
}
use mathlib.Core.Path.{subst}
use awtrix_controller.Prelude.Text.{Text, is_ascii_digit}
use awtrix_controller.Prelude.Decimal.{value_from}
use awtrix_controller.Config.TimeOfDay.{
  TimeOfDay, ParseError, invalid_time, is_hour, is_two_digits, split_once, parse_u8, new,
  two_digits, display, time_of_parts, time_from_str,
}
use awtrix_controller.Config.TimeOfDay.Digits.{
  two_bytes, two_digits_eq, is_two_digits-eq, split_once_lem, split_once_digits,
  two_digits-is_two_digits, parse_u8-two_digits,
}

ok≢err : {E A : Type 0} (a : A) (e : E) → err e ≡ ok a → ⊥
ok≢err a e h = cc

ok-injective : (a b : TimeOfDay) → ◌≡◌ {A = Result ParseError TimeOfDay} (ok a) (ok b) → a ≡ b
ok-injective a b h = cc

-- One digit is its number printed with two digits, less the zero in front.
is_hour-eq :
    (s : Text)
    → is_hour s ≡ true
    → (n : ℕ) × (n < 100) × (parse_u8 s ≡ some n) × ((s ≡ two_digits n) ⊎ (b'0' ∷ s ≡ two_digits n))
unfolding parse_u8 value_from
is_hour-eq [] h = absurd (cc)
is_hour-eq (a ∷ []) h = (
  a - b'0',
  ground arith,
  ground arith,
  inr (
      two_bytes b'0' a _ _ (ground arith) (ground arith)
      ∙ sym (two_digits_eq (a - b'0') (ground arith))),
)
is_hour-eq (a ∷ b ∷ []) h =
    let (n, l, p, e) = is_two_digits-eq (a ∷ b ∷ []) (ground arith) in (n, l, p, inl e)
is_hour-eq (a ∷ b ∷ c ∷ s) h = absurd (ground arith)

time_of_parts_err :
    (e : ParseError) (h m : Text)
    → (is_hour h && is_two_digits m) ≡ false
    → time_of_parts e h m ≡ err e
unfolding time_of_parts
time_of_parts_err e h m k = ground arith

time_of_parts_ok :
    (e : ParseError) (h m : Text) (n k : ℕ)
    → is_hour h ≡ true
    → is_two_digits m ≡ true
    → parse_u8 h ≡ some n
    → parse_u8 m ≡ some k
    → time_of_parts e h m ≡ ok_or (new n k) e
unfolding time_of_parts
time_of_parts_ok e h m n k p q r s = rw (p, time_of_parts) (rw q (rw r (rw s refl)))

new_valid :
    (n k : ℕ) (e : ParseError)
    → n < 24
    → k < 60
    → ok_or (new n k) e ≡ ok (record { hour = n; minute = k })
unfolding new
new_valid n k e l l' = ground arith

new_ok :
    (n k : ℕ) (e : ParseError) (t : TimeOfDay)
    → ok_or (new n k) e ≡ ok t
    → (n < 24) × (k < 60) × (t ≡ record { hour = n; minute = k })
unfolding new
new_ok n k e t h = elim (Bool-cases (ltb n 24 && ltb k 60)) [
  | inl b ↦ (ground arith, ground arith, sym (ok-injective _ t (rw (b, new) at h)))
  | inr b ↦ absurd (ok≢err t e (rw (b, new) at h))
]

time_from_str_split :
    (s h m : Text)
    → split_once b':' s ≡ some (h, m)
    → time_from_str s ≡ time_of_parts (invalid_time s) h m
unfolding time_from_str
time_from_str_split s h m e = rw (e, time_from_str) refl

-- The hour with two digits, or less the zero in front.
abbrev pub Displays : Text → TimeOfDay → Type 0
Displays s t = (s ≡ display t) ⊎ (b'0' ∷ s ≡ display t)

accepted :
    (s h m : Text) (n k : ℕ)
    → s ≡ h ++ b':' ∷ m
    → (h ≡ two_digits n) ⊎ (b'0' ∷ h ≡ two_digits n)
    → m ≡ two_digits k
    → Displays s (record { hour = n; minute = k })
unfolding display
accepted s h m n k e (inl p) q = inl (rw (e, p, q) refl)
accepted s h m n k e (inr p) q = inr (rw (e, q) (ap (λ x. x ++ b':' ∷ two_digits k) p))

parts_displayed :
    (s h m : Text) (t : TimeOfDay)
    → split_once b':' s ≡ some (h, m)
    → time_of_parts (invalid_time s) h m ≡ ok t
    → (t.hour < 24) × (t.minute < 60) × Displays s t
parts_displayed s h m t q r = elim (Bool-cases (is_hour h && is_two_digits m)) [
  | inr b ↦ absurd (ok≢err t (invalid_time s) (sym (time_of_parts_err (invalid_time s) h m b) ∙ r))
  | inl b ↦
      let hour_ok : is_hour h ≡ true = ground arith in
      let minute_ok : is_two_digits m ≡ true = ground arith in
      let (n, _, p, d) = is_hour-eq h hour_ok in
      let (k, _, p', d') = is_two_digits-eq m minute_ok in
      let (l, l', e) =
        new_ok n k (invalid_time s) t
          (sym (time_of_parts_ok (invalid_time s) h m n k hour_ok minute_ok p p') ∙ r) in
      subst (λ t'. (t'.hour < 24) × (t'.minute < 60) × Displays s t') (sym e)
        (l, l', accepted s h m n k (split_once_lem b':' s h m q) d d')
]

unsplit : (s : Text) → split_once b':' s ≡ none → time_from_str s ≡ err (invalid_time s)
unfolding time_from_str
unsplit s q = rw (q, time_from_str) refl

time_from_str-Displays :
    (s : Text) (t : TimeOfDay)
    → time_from_str s ≡ ok t
    → (t.hour < 24) × (t.minute < 60) × Displays s t
time_from_str-Displays s t r = elim (Option-cases (split_once b':' s)) [
  | inl q ↦ absurd (ok≢err t (invalid_time s) (sym (unsplit s q) ∙ r))
  | inr ((h, m), q) ↦ parts_displayed s h m t q (sym (time_from_str_split s h m q) ∙ r)
]

parses :
    (h : Text) (t : TimeOfDay)
    → is_hour h ≡ true
    → all is_ascii_digit h ≡ true
    → parse_u8 h ≡ some t.hour
    → t.hour < 24
    → t.minute < 60
    → time_from_str (h ++ b':' ∷ two_digits t.minute) ≡ ok t
parses h t p d q l l' =
    let m = two_digits t.minute in
    let s = h ++ b':' ∷ m in
    time_from_str_split s h m (split_once_digits b':' h m refl d)
    ∙ time_of_parts_ok (invalid_time s) h m t.hour t.minute p
        (two_digits-is_two_digits t.minute (ground arith)) q
        (parse_u8-two_digits t.minute (ground arith))
    ∙ new_valid t.hour t.minute (invalid_time s) l l'

-- A zero in front is that of an hour below 10.
zero_first :
    (s : Text) (n : ℕ) (rest : Text)
    → n < 100
    → b'0' ∷ s ≡ two_digits n ++ rest
    → (s ≡ (b'0' + n % 10) ∷ rest) × (n < 10)
zero_first s n rest l e =
    let e' = rw (two_digits_eq n l) at e in
    let q : b'0' ≡ b'0' + n / 10 = cc in (cc, ground (arith, q))

parse_u8-one : (n : ℕ) → n < 10 → parse_u8 ((b'0' + n % 10) ∷ []) ≡ some n
unfolding parse_u8 value_from
parse_u8-one n l = ground arith

Displays-time_from_str :
    (s : Text) (t : TimeOfDay)
    → (t.hour < 24) × (t.minute < 60) × Displays s t
    → time_from_str s ≡ ok t
unfolding display
Displays-time_from_str s t (l, l', inl e) =
    let d = two_digits-is_two_digits t.hour (ground arith) in
    rw e (
      parses (two_digits t.hour) t (ground (arith, d)) (ground (arith, d))
        (parse_u8-two_digits t.hour (ground arith)) l l')
Displays-time_from_str s t (l, l', inr e) =
    let (e', small) = zero_first s t.hour (b':' ∷ two_digits t.minute) (ground arith) e in
    rw e' (
      parses ((b'0' + t.hour % 10) ∷ []) t (ground arith) (ground arith) (parse_u8-one t.hour small)
        l l')

-- The texts that are read as a time of day are the times of day of a day printed as `HH:MM`, or
-- printed so and less the zero in front; each is read as the time that it prints.
pub time_from_str_iff :
    (s : Text) (t : TimeOfDay)
    → (time_from_str s ≡ ok t)
      ↔ ((t.hour < 24) × (t.minute < 60) × ((s ≡ display t) ⊎ (b'0' ∷ s ≡ display t)))
time_from_str_iff s t = (time_from_str-Displays s t, Displays-time_from_str s t)
