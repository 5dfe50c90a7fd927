-- ===== src/Prelude/Decimal.antt =====
-- Decimal numerals, as `{}` prints an integer and `str::parse` reads an unsigned one.
use Prim.Native.Nat.{ℕ, zero, suc, ◌+◌, ◌-◌, ◌*◌, ◌/◌, ◌%◌, ◌<◌, ◌≤◌}
use mathlib.Core.Path.{◌≡◌, refl, ap, ◌∙◌}
use mathlib.Core.List.{[], ◌∷◌, ◌++◌}
use native.Mathlib.Omega.{arith}
use awtrix_controller.Prelude.Tests.{ltb, if◌then◌else◌, Bool-cases}
use awtrix_controller.Prelude.Int.{ℤ, pos, negsuc}
use awtrix_controller.Prelude.Text.{Text, is_ascii_digit}
use awtrix_controller.Prelude.Lists.{all}
use mathlib.Core.Bool.{true}
use mathlib.Core.Logic.{◌≢◌, ◌⊎◌, inl, inr}

-- The digits of `n`, most significant first; `n` is below `10 ^ fuel`, so `suc n` is enough fuel.
digits : ℕ → ℕ → Text
digits zero n = []
digits (suc f) n =
    let rest = digits f (n / 10) ++ (b'0' + n % 10) ∷ [] in
    if ltb n 10 then (b'0' + n) ∷ [] else rest

unfoldable pub show_ℕ : ℕ → Text
unfolding digits
show_ℕ n = digits (suc n) n

unfoldable pub show_ℤ : ℤ → Text
unfolding show_ℕ
show_ℤ (pos n) = show_ℕ n
show_ℤ (negsuc n) = b'-' ∷ show_ℕ (suc n)

-- The number that a text of digits stands for, read from the left.
unfoldable pub value_from : ℕ → Text → ℕ
value_from acc [] = acc
value_from acc (c ∷ s) = value_from (acc * 10 + (c - b'0')) s

value_from-append_one :
    (s : Text) (acc c : ℕ) → value_from acc (s ++ c ∷ []) ≡ value_from acc s * 10 + (c - b'0')
unfolding value_from
value_from-append_one [] acc c = refl
value_from-append_one (x ∷ s) acc c = value_from-append_one s (acc * 10 + (x - b'0')) c

value_from-digits : (f n : ℕ) → n < f → value_from 0 (digits f n) ≡ n
unfolding value_from digits
value_from-digits zero n h = absurd (omega arith)
value_from-digits (suc f) n h = elim (Bool-cases (ltb n 10)) [
  | inl small ↦ rw small (omega arith)
  | inr big ↦ rw big (
      rw (value_from-append_one (digits f (n / 10)) 0 (b'0' + n % 10))
        (rw (value_from-digits f (n / 10) (ground arith)) (omega arith)))
]

-- What is printed reads back, so numerals are injective.
pub value_from-show_ℕ : (n : ℕ) → value_from 0 (show_ℕ n) ≡ n
unfolding show_ℕ
value_from-show_ℕ n = value_from-digits (suc n) n (omega arith)

-- Numerals of one and of two digits.
pub show_ℕ_one : (n : ℕ) → n < 10 → show_ℕ n ≡ (b'0' + n) ∷ []
unfolding show_ℕ digits
show_ℕ_one n h = ground arith

pub show_ℕ_two : (n : ℕ) → 10 ≤ n → n < 100 → show_ℕ n ≡ (b'0' + n / 10) ∷ (b'0' + n % 10) ∷ []
unfolding show_ℕ digits
show_ℕ_two zero l h = absurd (omega arith)
show_ℕ_two (suc n) l h = ground arith

-- A numeral is one digit, or several of which the first is not 0.
abbrev pub IsNumeral : Text → Type 0
IsNumeral s =
    ((c : ℕ) × (s ≡ c ∷ []) × (is_ascii_digit c ≡ true))
    ⊎ ((a : ℕ) × (b : ℕ) × (r : Text) × (s ≡ a ∷ b ∷ r)
        × (b'1' ≤ a)
        × (a ≤ b'9')
        × (all is_ascii_digit (b ∷ r) ≡ true))

all-snoc :
    (s : Text) (c : ℕ)
    → all is_ascii_digit s ≡ true
    → is_ascii_digit c ≡ true
    → all is_ascii_digit (s ++ c ∷ []) ≡ true
all-snoc [] c h k = ground (arith, k)
all-snoc (x ∷ s) c h k = ground (arith, all-snoc s c)

IsNumeral-snoc :
    (s : Text) (c : ℕ)
    → IsNumeral s
    → s ≢ b'0' ∷ []
    → is_ascii_digit c ≡ true
    → IsNumeral (s ++ c ∷ [])
IsNumeral-snoc s c (inl (x, e, h)) n k =
    let nonzero : x ≢ b'0' = λ z. n (e ∙ ap (λ y. y ∷ []) z) in
    inr
      (x, c, [], ap (λ t. t ++ c ∷ []) e, ground (arith, nonzero), ground arith, ground (arith, k))
IsNumeral-snoc s c (inr (a, b, r, e, l, u, h)) n k =
    inr (a, b, r ++ c ∷ [], ap (λ t. t ++ c ∷ []) e, l, u, all-snoc (b ∷ r) c h k)

head_eq : (a b : ℕ) → a ∷ [] ≡ b ∷ [] → a ≡ b
head_eq a b e = cc

two_ne_one : (s : Text) (c d : ℕ) → IsNumeral s → s ++ c ∷ [] ≡ d ∷ [] → ⊥
two_ne_one [] c d (inl (x, e, _)) h = cc
two_ne_one [] c d (inr (a, b, r, e, _, _, _)) h = cc
two_ne_one (x ∷ []) c d n h = cc
two_ne_one (x ∷ y ∷ s) c d n h = cc

digits-IsNumeral : (f n : ℕ) → n < f → IsNumeral (digits f n) × (n ≢ 0 → digits f n ≢ b'0' ∷ [])
unfolding digits
digits-IsNumeral zero n h = absurd (omega arith)
digits-IsNumeral (suc f) n h = elim (Bool-cases (ltb n 10)) [
  | inl small ↦
      rw small
        (inl (b'0' + n, refl, ground arith), λ nz e. nz (omega (arith, head_eq (b'0' + n) b'0' e)))
  | inr big ↦
      let (ih, ne) = digits-IsNumeral f (n / 10) (ground (arith, big)) in
      let nonzero : n / 10 ≢ 0 = ground (arith, big) in
      rw big (
        IsNumeral-snoc (digits f (n / 10)) (b'0' + n % 10) ih (ne nonzero) (ground arith),
        λ _ e. two_ne_one (digits f (n / 10)) (b'0' + n % 10) (b'0') ih e,
      )
]

pub show_ℕ-IsNumeral : (n : ℕ) → IsNumeral (show_ℕ n)
unfolding show_ℕ
show_ℕ-IsNumeral n = (digits-IsNumeral (suc n) n (omega arith)).0
