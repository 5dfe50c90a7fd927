-- ===== src/Prelude/Radix.antt =====
-- Digits in a base up to 36, as `char::is_digit` and `u64::from_str_radix` read them.
use Prim.Native.Nat.{ℕ, ◌+◌, ◌-◌, ◌*◌}
use mathlib.Core.Path.{◌≡◌, refl, ap, ◌∙◌}
use mathlib.Core.Bool.{Bool, true, false, ◌&&◌}
use mathlib.Core.Option.{Option, none, some}
use mathlib.Core.List.{[], ◌∷◌, map}
use native.Mathlib.Omega.{arith}
use awtrix_controller.Prelude.Tests.{ltb, leb, if◌then◌else◌}
use awtrix_controller.Prelude.Lists.{all}
use awtrix_controller.Prelude.Text.{Text, is_ascii_digit}
use awtrix_controller.Prelude.Decimal.{value_from}

-- `u8::to_ascii_lowercase`.
abbrev pub lower : ℕ → ℕ
lower c = if leb b'A' c && leb c b'Z' then c + 32 else c

-- A byte that is no digit stands for 36, which is no digit of any base.
abbrev pub digit_of : ℕ → ℕ
digit_of c =
    if leb b'0' c && leb c b'9'
    then c - b'0'
    else if leb b'a' c && leb c b'z'
    then c - b'a' + 10
    else if leb b'A' c && leb c b'Z'
    then c - b'A' + 10
    else 36

-- `char::is_digit`.
abbrev pub is_digit : ℕ → ℕ → Bool
is_digit radix c = ltb (digit_of c) radix

unfoldable pub value_in : ℕ → ℕ → Text → ℕ
value_in radix acc [] = acc
value_in radix acc (c ∷ s) = value_in radix (acc * radix + digit_of c) s

abbrev pub is_blank : Text → Bool
is_blank [] = true
is_blank (_ ∷ _) = false

-- `u64::from_str_radix(…).ok()`, of a text that does not begin with a sign.
unfoldable pub u64_from_str_radix : Text → ℕ → Option ℕ
u64_from_str_radix s radix =
    if is_blank s
    then none
    else if all (is_digit radix) s
    then if ltb (value_in radix 0 s) 18446744073709551616 then some (value_in radix 0 s) else none
    else none

-- Lower-casing changes no digit.
digit_of-lower : (c : ℕ) → digit_of (lower c) ≡ digit_of c
digit_of-lower c = ground arith

pub value_in-lower :
    (radix acc : ℕ) (s : Text) → value_in radix acc (map lower s) ≡ value_in radix acc s
unfolding value_in
value_in-lower radix acc [] = refl
value_in-lower radix acc (c ∷ s) =
    ap (λ d. value_in radix (acc * radix + d) (map lower s)) (digit_of-lower c)
    ∙ value_in-lower radix (acc * radix + digit_of c) s

pub all-lower : (radix : ℕ) (s : Text) → all (is_digit radix) (map lower s) ≡ all (is_digit radix) s
all-lower radix [] = refl
all-lower radix (c ∷ s) = ground (arith, digit_of-lower c, all-lower radix s)

pub is_blank-lower : (s : Text) → is_blank (map lower s) ≡ is_blank s
is_blank-lower [] = refl
is_blank-lower (c ∷ s) = refl

pub u64_from_str_radix-lower :
    (s : Text) (radix : ℕ) → u64_from_str_radix (map lower s) radix ≡ u64_from_str_radix s radix
unfolding u64_from_str_radix
u64_from_str_radix-lower s radix =
    rw (is_blank-lower s) (rw (all-lower radix s) (rw (value_in-lower radix 0 s) refl))

-- A text of decimal digits stands for the same number in both readings.
pub value_in-decimal :
    (acc : ℕ) (s : Text) → all is_ascii_digit s ≡ true → value_in 10 acc s ≡ value_from acc s
unfolding value_in value_from
value_in-decimal acc [] h = refl
value_in-decimal acc (c ∷ s) h =
    let d : digit_of c ≡ c - b'0' = ground arith in
    ap (λ k. value_in 10 (acc * 10 + k) s) d
    ∙ value_in-decimal (acc * 10 + (c - b'0')) s (ground arith)

pub all-decimal : (s : Text) → all is_ascii_digit s ≡ true → all (is_digit 10) s ≡ true
all-decimal [] h = refl
all-decimal (c ∷ s) h = ground (arith, all-decimal s)
