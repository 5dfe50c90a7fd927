-- ===== src/Config/Lenient.antt =====
-- src/config/lenient.rs: the scalars of the configuration file, read the way yaml.v3 decoded them.
pub mod Decimals
use awtrix_controller.Prelude.{
  ℕ, suc, zero, ◌-◌, ◌∷◌, ◌&&◌, ◌||◌, not, Bool, true, false, Option, none, some, List, [], map,
  leb, ◌==◌, all, any, filter, length, unwrap_or, if◌then◌else◌, Result, ok, err,
}
use awtrix_controller.Prelude.Int.{ℤ, pos, negsuc}
use awtrix_controller.Prelude.Text.{Text, bytes, same, is_ascii_digit}
use awtrix_controller.Prelude.Radix.{lower, is_blank, is_digit, u64_from_str_radix}
use awtrix_controller.Instants.{Floats}

-- `Number`.
pub data Number (F : Type 0) : Type 0 where
  integer : ℤ → Number F
  decimal : F → Number F

-- The sign, and the text after it.
abbrev pub split_sign : Text → Bool × Text
split_sign [] = (false, [])
split_sign (c ∷ s) =
    if c == b'-' then (true, s) else if c == b'+' then (false, s) else (false, c ∷ s)

-- The base that a prefix selects, and the digits after it.
abbrev pub split_radix : Text → ℕ × Text
split_radix [] = (10, [])
split_radix (a ∷ []) = (10, a ∷ [])
split_radix (a ∷ b ∷ s) =
    if a == b'0' && b == b'x'
    then (16, s)
    else if a == b'0' && b == b'o'
    then (8, s)
    else if a == b'0' && b == b'b'
    then (2, s)
    else if a == b'0'
    then (8, b ∷ s)
    else (10, a ∷ b ∷ s)

-- `i64::try_from`, of a magnitude with its sign.
unfoldable pub i64_of : Bool → ℕ → Option ℤ
i64_of false n = if leb n 9223372036854775807 then some (pos n) else none
i64_of true zero = some (pos 0)
i64_of true (suc n) = if leb (suc n) 9223372036854775808 then some (negsuc n) else none

abbrev pub signed : Bool → Option ℕ → Option ℤ
signed negative none = none
signed negative (some n) = i64_of negative n

unfoldable pub parse_int_base0 : Text → Option ℤ
parse_int_base0 text =
    let (negative, unsigned) = split_sign text in
    let (radix, digits) = split_radix (map lower unsigned) in
    if is_blank digits || not (all (is_digit radix) digits)
    then none
    else signed negative (u64_from_str_radix digits radix)

abbrev pub is_sign : ℕ → Bool
is_sign c = c == b'-' || c == b'+'

-- `strip_prefix(['-', '+'])`, or the text.
abbrev pub strip_sign : Text → Text
strip_sign [] = []
strip_sign (c ∷ s) = if is_sign c then s else c ∷ s

-- The text before the first byte that passes, and the one after it.
unfoldable pub split_at : (ℕ → Bool) → Text → Text × Option Text
split_at p [] = ([], none)
split_at p (c ∷ s) =
    let (before, after) = split_at p s in if p c then ([], some s) else (c ∷ before, after)

abbrev pub all_digits : Text → Bool
all_digits part = all is_ascii_digit part

unfoldable pub is_mantissa : Text × Option Text → Bool
is_mantissa ([], some fraction) = not (is_blank fraction) && all_digits fraction
is_mantissa (c ∷ whole, some fraction) = all_digits (c ∷ whole) && all_digits fraction
is_mantissa (whole, none) = not (is_blank whole) && all_digits whole

abbrev pub is_exponent : Option Text → Bool
is_exponent none = true
is_exponent (some exponent) =
    let digits = strip_sign exponent in not (is_blank digits) && all_digits digits

unfoldable pub is_yaml_float : Text → Bool
is_yaml_float text =
    let (mantissa, exponent) = split_at (λ c. c == b'e' || c == b'E') (strip_sign text) in
    is_mantissa (split_at (λ c. c == b'.') mantissa) && is_exponent exponent

abbrev pub starts_number : Text → Bool
starts_number [] = false
starts_number (c ∷ _) = is_ascii_digit c || (is_sign c || c == b'.')

-- A scalar as the YAML reader hands it to a visitor; `other` is a sequence or a mapping.
pub data Scalar (F : Type 0) : Type 0 where
  unit none_given other : Scalar F
  some_given : Scalar F → Scalar F
  bool : Bool → Scalar F
  i64 : ℤ → Scalar F
  u64 : ℕ → Scalar F
  f64 : F → Scalar F
  str : Text → Scalar F

-- The error of a visitor, with what it met and what it expected.
pub data VisitError (F : Type 0) : Type 0 where
  invalid_value invalid_type : Scalar F → Text → VisitError F

abbrev pub yes_names : List Text
yes_names =
    bytes "y"
    ∷ bytes "Y"
    ∷ bytes "yes"
    ∷ bytes "Yes"
    ∷ bytes "YES"
    ∷ bytes "on"
    ∷ bytes "On"
    ∷ bytes "ON"
    ∷ []

abbrev pub no_names : List Text
no_names =
    bytes "n"
    ∷ bytes "N"
    ∷ bytes "no"
    ∷ bytes "No"
    ∷ bytes "NO"
    ∷ bytes "off"
    ∷ bytes "Off"
    ∷ bytes "OFF"
    ∷ []

abbrev pub is_one_of : Text → List Text → Bool
is_one_of text names = any (λ name. same text name) names

module _ (fl : Floats) where
  abbrev pub float_of : Text → Option (Number fl.F)
  float_of plain = elim (fl.parse plain) [ none ↦ none | some value ↦ some (decimal value) ]

  unfoldable pub resolve_number : Text → Option (Number fl.F)
  resolve_number text =
      let plain = filter (λ c. not (c == b'_')) text in
      if not (starts_number text) then none else elim (parse_int_base0 plain) [
        | some value ↦ some (integer value)
        | none ↦ if is_yaml_float plain then float_of plain else none
      ]

  unfoldable pub truncate : fl.F → Result (VisitError fl.F) ℤ
  truncate value =
      if fl.is_finite value && fl.fits_i64 value
      then ok (fl.trunc value)
      else err (invalid_value (f64 value) (bytes "an integer"))

  abbrev pub given {ℓ} :
      {A : Type ℓ} → Result (VisitError fl.F) A → Result (VisitError fl.F) (Option A)
  given (ok a) = ok (some a)
  given (err e) = err e

  -- `IntVisitor`.
  unfoldable pub int : Scalar fl.F → Result (VisitError fl.F) (Option ℤ)
  int unit = ok none
  int none_given = ok none
  int (some_given scalar) = int scalar
  int (i64 value) = ok (some value)
  int (u64 value) =
      if leb value 9223372036854775807
      then ok (some (pos value))
      else err (invalid_value (u64 value) (bytes "an integer"))
  int (f64 value) = given (truncate value)
  int (str text) = elim (resolve_number text) [
    | some (integer value) ↦ ok (some value)
    | some (decimal value) ↦ given (truncate value)
    | none ↦ err (invalid_type (str text) (bytes "an integer"))
  ]
  int (bool b) = err (invalid_type (bool b) (bytes "an integer"))
  int other = err (invalid_type other (bytes "an integer"))

  -- `FloatVisitor`.
  unfoldable pub float : Scalar fl.F → Result (VisitError fl.F) (Option fl.F)
  float unit = ok none
  float none_given = ok none
  float (some_given scalar) = float scalar
  float (i64 value) = ok (some (fl.from_int value))
  float (u64 value) = ok (some (fl.from_int (pos value)))
  float (f64 value) = ok (some value)
  float (str text) = elim (resolve_number text) [
    | some (integer value) ↦ ok (some (fl.from_int value))
    | some (decimal value) ↦ ok (some value)
    | none ↦ err (invalid_type (str text) (bytes "a number"))
  ]
  float (bool b) = err (invalid_type (bool b) (bytes "a number"))
  float other = err (invalid_type other (bytes "a number"))

  -- `BoolVisitor`.
  unfoldable pub boolean : Scalar fl.F → Result (VisitError fl.F) (Option Bool)
  boolean unit = ok none
  boolean none_given = ok none
  boolean (some_given scalar) = boolean scalar
  boolean (bool b) = ok (some b)
  boolean (str text) =
      if is_one_of text yes_names
      then ok (some true)
      else if is_one_of text no_names
      then ok (some false)
      else err (invalid_type (str text) (bytes "a boolean"))
  boolean (i64 value) = err (invalid_type (i64 value) (bytes "a boolean"))
  boolean (u64 value) = err (invalid_type (u64 value) (bytes "a boolean"))
  boolean (f64 value) = err (invalid_type (f64 value) (bytes "a boolean"))
  boolean other = err (invalid_type other (bytes "a boolean"))

-- `or_default`, of a type whose values have been decoded, and `list`.
abbrev pub or_default {ℓ} : {A : Type ℓ} → A → Option A → A
or_default default given = unwrap_or given default

unfoldable pub list {ℓ} : {A : Type ℓ} → A → Option (List (Option A)) → List A
list default given = map (λ item. unwrap_or item default) (unwrap_or given [])
