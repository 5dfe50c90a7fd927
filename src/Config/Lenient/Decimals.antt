-- ===== src/Config/Lenient/Decimals.antt =====
-- src/config/lenient.rs: decimal integers of the configuration file.
use awtrix_controller.Prelude.{
  ℕ, suc, ◌<◌, ◌≡◌, refl, ap, ◌∙◌, inl, inr, ◌∷◌, ◌||◌, Bool, not, true, false, Option, none, some,
  map, arith, all, if◌then◌else◌,
}
use awtrix_controller.Prelude.Int.{ℤ, pos, negsuc, ◌≤ℤ◌, i64_min, i64_max}
use awtrix_controller.Prelude.Text.{Text, is_ascii_digit}
use awtrix_controller.Prelude.Decimal.{
  show_ℕ, show_ℤ, value_from-show_ℕ, IsNumeral, show_ℕ-IsNumeral,
}
use awtrix_controller.Prelude.Radix.{
  lower, is_blank, is_digit, value_in, u64_from_str_radix, value_in-decimal, all-decimal,
  u64_from_str_radix-lower, is_blank-lower, all-lower,
}
use awtrix_controller.Config.Lenient.{split_sign, split_radix, i64_of, signed, parse_int_base0}

pub numeral-digits : (s : Text) → IsNumeral s → (all is_ascii_digit s ≡ true) × (is_blank s ≡ false)
numeral-digits s (inl (c, e, h)) = rw e (ground (arith, h), refl)
numeral-digits s (inr (a, b, r, e, l, u, h)) = rw e (ground (arith, h), refl)

numeral-radix : (s : Text) → IsNumeral s → split_radix (map lower s) ≡ (10, map lower s)
numeral-radix s (inl (c, e, h)) = rw e refl
numeral-radix s (inr (a, b, r, e, l, u, h)) = rw e (ground arith)

numeral-sign : (s : Text) → IsNumeral s → split_sign s ≡ (false, s)
numeral-sign s (inl (c, e, h)) = rw e (ground (arith, h))
numeral-sign s (inr (a, b, r, e, l, u, h)) = rw e (ground arith)

numeral-value : (n : ℕ) → n < 18446744073709551616 → u64_from_str_radix (show_ℕ n) 10 ≡ some n
unfolding u64_from_str_radix
numeral-value n h =
    let (d, b) = numeral-digits (show_ℕ n) (show_ℕ-IsNumeral n) in
    let v : value_in 10 0 (show_ℕ n) ≡ n = value_in-decimal 0 (show_ℕ n) d ∙ value_from-show_ℕ n in
    rw b (rw (all-decimal (show_ℕ n) d) (rw v (ground (arith, h))))

-- What the file makes of a sign, a base and its digits.
abbrev pub file_integer : Bool → ℕ × Text → Option ℤ
file_integer negative (radix, digits) =
    if is_blank digits || not (all (is_digit radix) digits)
    then none
    else signed negative (u64_from_str_radix digits radix)

file_magnitude :
    (negative : Bool) (n : ℕ)
    → n < 18446744073709551616
    → file_integer negative (split_radix (map lower (show_ℕ n))) ≡ signed negative (some n)
file_magnitude negative n h =
    let s = show_ℕ n in
    let numeral = show_ℕ-IsNumeral n in
    let (d, b) = numeral-digits s numeral in
    rw (numeral-radix s numeral) (
      rw (is_blank-lower s) (
        rw (all-lower 10 s) (
          rw (u64_from_str_radix-lower s 10)
            (rw (numeral-value n h) (rw b (rw (all-decimal s d) refl))))))

parse_signed :
    (s rest : Text) (negative : Bool)
    → split_sign s ≡ (negative, rest)
    → parse_int_base0 s ≡ file_integer negative (split_radix (map lower rest))
unfolding parse_int_base0
parse_signed s rest negative e =
    ap (λ (p : Bool × Text). file_integer p.0 (split_radix (map lower p.1))) e

pub parse_int_base0-show_ℤ :
    (n : ℤ) → i64_min ≤ℤ n → n ≤ℤ i64_max → parse_int_base0 (show_ℤ n) ≡ some n
unfolding show_ℤ i64_of
parse_int_base0-show_ℤ (pos n) l u =
    parse_signed (show_ℕ n) (show_ℕ n) false (numeral-sign (show_ℕ n) (show_ℕ-IsNumeral n))
    ∙ file_magnitude false n (omega arith)
    ∙ ground arith
parse_int_base0-show_ℤ (negsuc n) l u =
    parse_signed (b'-' ∷ show_ℕ (suc n)) (show_ℕ (suc n)) true refl
    ∙ file_magnitude true (suc n) (omega arith)
    ∙ ground arith
