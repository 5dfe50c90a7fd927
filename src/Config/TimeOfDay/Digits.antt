-- ===== src/Config/TimeOfDay/Digits.antt =====
-- src/config/time_of_day.rs: texts of one or two digits and the numbers that they stand for.
use awtrix_controller.Prelude.{
  ℕ, ◌+◌, ◌-◌, ◌*◌, ◌/◌, ◌%◌, ◌<◌, ◌≡◌, refl, sym, ap, ◌∙◌, inl, inr, ◌∷◌, ◌++◌, ◌&&◌, Bool, true,
  false, Option, none, some, [], arith, ltb, ◌==◌, all, length, if◌then◌else◌, Bool-cases,
}
use mathlib.Core.Option.{some-injective, none-ne-some}
use awtrix_controller.Prelude.Text.{Text, is_ascii_digit}
use awtrix_controller.Prelude.Decimal.{value_from, show_ℕ_one, show_ℕ_two}
use awtrix_controller.Config.TimeOfDay.{prefixed, split_once, parse_u8, two_digits}

pub two_bytes : (a b c d : ℕ) → a ≡ c → b ≡ d → a ∷ b ∷ [] ≡ c ∷ d ∷ []
two_bytes a b c d p q = rw (p, q) refl

-- A number below 100 printed with two digits.
pub two_digits_eq : (n : ℕ) → n < 100 → two_digits n ≡ (b'0' + n / 10) ∷ (b'0' + n % 10) ∷ []
unfolding two_digits
two_digits_eq n h = elim (Bool-cases (ltb n 10)) [
  | inl b ↦
      rw b (rw (show_ℕ_one n (ground arith)) (two_bytes _ _ _ _ (ground arith) (ground arith)))
  | inr b ↦ rw b (show_ℕ_two n (ground arith) h)
]

-- A text of two digits is its number printed with two digits.
pub is_two_digits-eq :
    (s : Text)
    → ((length s == 2) && all is_ascii_digit s) ≡ true
    → (n : ℕ) × (n < 100) × (parse_u8 s ≡ some n) × (s ≡ two_digits n)
unfolding parse_u8 value_from
is_two_digits-eq [] h = absurd (cc)
is_two_digits-eq (a ∷ []) h = absurd (cc)
is_two_digits-eq (a ∷ b ∷ c ∷ s) h = absurd (ground arith)
is_two_digits-eq (a ∷ b ∷ []) h =
    let n = (a - b'0') * 10 + (b - b'0') in
    (
      n,
      ground arith,
      ground arith,
      two_bytes a b _ _ (ground arith) (ground arith) ∙ sym (two_digits_eq n (ground arith)),
    )

split_step :
    (c x : ℕ) (s a b : Text) (found : Bool) (rest : Option (Text × Text))
    → (x == c) ≡ found
    → ((a' b' : Text) → rest ≡ some (a', b') → s ≡ a' ++ c ∷ b')
    → if◌then◌else◌ {A = Option (Text × Text)} found (some ([], s)) (prefixed x rest) ≡ some (a, b)
    → x ∷ s ≡ a ++ c ∷ b
split_step c x s a b true rest e ih h =
    let p = some-injective ([], s) (a, b) h in
    let p0 : [] ≡ a = ap (λ q. q.0) p in
    let p1 : s ≡ b = ap (λ q. q.1) p in
    let xc : x ≡ c = ground (arith, e) in rw (sym p0) (rw (p1, xc) refl)
split_step c x s a b false none e ih h = absurd (none-ne-some (a, b) h)
split_step c x s a b false (some (a', b')) e ih h =
    let p = some-injective (x ∷ a', b') (a, b) h in
    let p0 : x ∷ a' ≡ a = ap (λ q. q.0) p in
    let p1 : b' ≡ b = ap (λ q. q.1) p in rw (sym p0) (rw (sym p1) (ap (λ t. x ∷ t) (ih a' b' refl)))

-- A text that is split is its parts, with the separator between them.
pub split_once_lem : (c : ℕ) (s a b : Text) → split_once c s ≡ some (a, b) → s ≡ a ++ c ∷ b
unfolding split_once
split_once_lem c [] a b h = absurd (none-ne-some (a, b) h)
split_once_lem c (x ∷ s) a b h =
    split_step c x s a b (x == c) (split_once c s) refl (split_once_lem c s) h

-- A text of digits before the separator is split off.
pub split_once_digits :
    (c : ℕ) (a b : Text)
    → is_ascii_digit c ≡ false
    → all is_ascii_digit a ≡ true
    → split_once c (a ++ c ∷ b) ≡ some (a, b)
unfolding split_once
split_once_digits c [] b h k = ground arith
split_once_digits c (x ∷ a) b h k =
    let differs : (x == c) ≡ false = ground arith in
    rw (differs, split_once_digits c a b h (ground arith)) refl

pub two_digits-is_two_digits :
    (n : ℕ) → n < 100 → ((length (two_digits n) == 2) && all is_ascii_digit (two_digits n)) ≡ true
two_digits-is_two_digits n h = rw (two_digits_eq n h) (ground arith)

pub parse_u8-two_digits : (n : ℕ) → n < 100 → parse_u8 (two_digits n) ≡ some n
unfolding parse_u8 value_from
parse_u8-two_digits n h = rw (two_digits_eq n h) (ground arith)
