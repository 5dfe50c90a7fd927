-- ===== src/Cli/Flags/Decimals.antt =====
-- src/cli/mod.rs and src/config/lenient.rs: the integers that the flags and the file have in common.
use awtrix_controller.Prelude.{
  ℕ, suc, zero, ◌≤◌, ◌≡◌, refl, sym, ap, ◌∙◌, inl, inr, ◌∷◌, ◌||◌, not, Bool, true, false, Option,
  none, some, [], map, arith, ◌==◌, all, filter, Bool-cases, if◌then◌else◌, ok, ok_or,
}
use awtrix_controller.Prelude.Int.{ℤ, pos, negsuc, ◌≤ℤ◌, i64_min, i64_max}
use awtrix_controller.Prelude.Text.{Text, is_ascii_digit}
use awtrix_controller.Prelude.Radix.{
  lower, is_blank, is_digit, u64_from_str_radix, u64_from_str_radix-lower,
}
use awtrix_controller.Config.Lenient
use awtrix_controller.Config.Lenient.{parse_int_base0, split_radix, i64_of}
use awtrix_controller.Config.Lenient.Decimals.{file_integer, numeral-digits, parse_int_base0-show_ℤ}
use awtrix_controller.Prelude.Decimal.{show_ℕ, show_ℤ, show_ℕ-IsNumeral}
use awtrix_controller.Cli.Flags.{
  base_of, sign_of, underscores_ok, underscores_from, starts_badly, with_sign, signed, go_int,
  parse_go_int,
}

abbrev pub is_plain : ℕ → Bool
is_plain c = not (c == b'_')

filter-plain : (s : Text) → all is_plain s ≡ true → filter is_plain s ≡ s
filter-plain [] h = refl
filter-plain (c ∷ s) h = ground (arith, filter-plain s)

underscores_from-plain : (b : Bool) (s : Text) → all is_plain s ≡ true → underscores_from b s ≡ true
unfolding underscores_from
underscores_from-plain b [] h = refl
underscores_from-plain b (c ∷ s) h = ground (arith, underscores_from-plain (not (c == b'_')) s)

-- The two ways to find the base agree.
split_radix-lower :
    (s : Text) → split_radix (map lower s) ≡ ((base_of s).0, map lower (base_of s).1)
split_radix-lower [] = refl
split_radix-lower (a ∷ []) = refl
split_radix-lower (a ∷ b ∷ s) = ground arith

base_of-plain : (s : Text) → all is_plain s ≡ true → all is_plain (base_of s).1 ≡ true
base_of-plain [] h = refl
base_of-plain (a ∷ []) h = h
base_of-plain (a ∷ b ∷ s) h = ground arith

sign_of-plain : (s : Text) → all is_plain s ≡ true → all is_plain (sign_of s).1 ≡ true
sign_of-plain [] h = refl
sign_of-plain (a ∷ s) h = ground arith

i64_of-with_sign : (negative : Bool) (n : ℕ) → i64_of negative n ≡ with_sign negative n
unfolding i64_of with_sign
i64_of-with_sign false n = refl
i64_of-with_sign true zero = refl
i64_of-with_sign true (suc n) = refl

signed_eq : (negative : Bool) (o : Option ℕ) → Lenient.signed negative o ≡ signed negative o
signed_eq negative none = refl
signed_eq negative (some n) = i64_of-with_sign negative n

split_sign_eq : (s : Text) → Lenient.split_sign s ≡ sign_of s
split_sign_eq [] = refl
split_sign_eq (c ∷ s) = ground arith

-- Digits that are refused before the conversion are refused by it.
not_digits :
    (s : Text) (radix : ℕ)
    → (is_blank s || not (all (is_digit radix) s)) ≡ true
    → u64_from_str_radix s radix ≡ none
unfolding u64_from_str_radix
not_digits [] radix h = refl
not_digits (c ∷ s) radix h = ground arith

base_le : (s : Text) → (base_of s).0 ≤ 16
base_le [] = omega arith
base_le (a ∷ []) = omega arith
base_le (a ∷ b ∷ s) = ground arith

bad_start :
    (s : Text) (radix : ℕ) → radix ≤ 16 → starts_badly s ≡ true → u64_from_str_radix s radix ≡ none
unfolding u64_from_str_radix
bad_start [] radix r h = refl
bad_start (c ∷ s) radix r h = ground arith

-- The magnitude that both convert.
module _ (unsigned : Text) (plain : all is_plain unsigned ≡ true) (negative : Bool) where
  abbrev radix : ℕ
  radix = (base_of unsigned).0

  abbrev digits : Text
  digits = (base_of unsigned).1

  file_side :
      (if is_blank (map lower digits) || not (all (is_digit radix) (map lower digits))
        then none
        else Lenient.signed negative (u64_from_str_radix (map lower digits) radix))
      ≡ signed negative (u64_from_str_radix digits radix)
  file_side =
      elim (Bool-cases
        (is_blank (map lower digits) || not (all (is_digit radix) (map lower digits)))) [
          | inl bad ↦ rw bad (
              ap (signed negative) (
                sym (not_digits (map lower digits) radix bad)
                ∙ u64_from_str_radix-lower digits radix))
          | inr good ↦
              rw good (
                signed_eq negative _ ∙ ap (signed negative) (u64_from_str_radix-lower digits radix))
        ]

  flag_side :
      (if not (underscores_ok digits (base_of unsigned).2)
        then none
        else if starts_badly (filter is_plain digits)
        then none
        else signed negative (u64_from_str_radix (filter is_plain digits) radix))
      ≡ signed negative (u64_from_str_radix digits radix)
  unfolding underscores_ok
  flag_side =
      let ds = base_of-plain unsigned plain in
      rw (underscores_from-plain (base_of unsigned).2 digits ds) (
        rw (filter-plain digits ds) (elim (Bool-cases (starts_badly digits)) [
          | inl bad ↦
              rw bad (ap (signed negative) (sym (bad_start digits radix (base_le unsigned) bad)))
          | inr good ↦ rw good refl
        ]))

parse_int_base0_eq :
    (s : Text)
    → parse_int_base0 s ≡ file_integer (sign_of s).0 (split_radix (map lower (sign_of s).1))
unfolding parse_int_base0
parse_int_base0_eq s =
    ap (λ (p : Bool × Text). file_integer p.0 (split_radix (map lower p.1))) (split_sign_eq s)

parse_int_base0-eq-go_int : (s : Text) → all is_plain s ≡ true → parse_int_base0 s ≡ go_int s
unfolding go_int
parse_int_base0-eq-go_int s h =
    let rest = sign_of-plain s h in
    parse_int_base0_eq s
    ∙ ap (file_integer (sign_of s).0) (split_radix-lower (sign_of s).1)
    ∙ file_side (sign_of s).1 rest (sign_of s).0
    ∙ sym (flag_side (sign_of s).1 rest (sign_of s).0)

-- Without underscores, the integers of the configuration file and those of the command line are
-- written the same way: with each sign, in each base, and with the same bounds.
pub parse_int_base0-parse_go_int :
    (s : Text) → all is_plain s ≡ true → parse_go_int s ≡ ok_or (parse_int_base0 s) s
unfolding parse_go_int
parse_int_base0-parse_go_int s h = ap (λ o. ok_or o s) (sym (parse_int_base0-eq-go_int s h))

digits-plain : (s : Text) → all is_ascii_digit s ≡ true → all is_plain s ≡ true
digits-plain [] h = refl
digits-plain (c ∷ s) h = ground (arith, digits-plain s)

show_ℤ-plain : (n : ℤ) → all is_plain (show_ℤ n) ≡ true
unfolding show_ℤ
show_ℤ-plain (pos n) = digits-plain (show_ℕ n) (numeral-digits (show_ℕ n) (show_ℕ-IsNumeral n)).0
show_ℤ-plain (negsuc n) =
    digits-plain (show_ℕ (suc n)) (numeral-digits (show_ℕ (suc n)) (show_ℕ-IsNumeral (suc n))).0

-- An integer in the range of `i64`, printed in decimal, is read back, from the configuration file and
-- from the command line.
pub integers-show_ℤ :
    (n : ℤ)
    → i64_min ≤ℤ n
    → n ≤ℤ i64_max
    → (parse_int_base0 (show_ℤ n) ≡ some n) × (parse_go_int (show_ℤ n) ≡ ok n)
integers-show_ℤ n l u =
    let file = parse_int_base0-show_ℤ n l u in
    (
      file,
      parse_int_base0-parse_go_int (show_ℤ n) (show_ℤ-plain n) ∙ ap (λ o. ok_or o (show_ℤ n)) file,
    )
