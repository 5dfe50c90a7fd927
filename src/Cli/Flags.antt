-- ===== src/Cli/Flags.antt =====
-- src/cli/mod.rs: the values of the flags, read as Go's flags read them. An error is the value.
pub mod Decimals
use awtrix_controller.Prelude.{
  ℕ, suc, zero, ◌-◌, ◌∷◌, ◌&&◌, ◌||◌, not, Bool, true, false, Option, none, some, List, [], leb,
  ◌==◌, any, filter, length, if◌then◌else◌, Result, ok, err, ok_or, ◌>>=◌,
}
use awtrix_controller.Prelude.Int.{ℤ, pos, negsuc, i64_max}
use awtrix_controller.Prelude.Text.{Text, bytes, same, is_ascii_digit}
use awtrix_controller.Prelude.Radix.{lower, u64_from_str_radix}
use awtrix_controller.Config.Sections
use awtrix_controller.Config.Sections.{LogFormat}
use awtrix_controller.Model.Payload.{
  PushIconBehavior, static, scroll, fixed, TextCaseMode, global_setting, uppercase, as_is,
}

abbrev pub is_one_of : Text → List Text → Bool
is_one_of value names = any (λ name. same value name) names

unfoldable pub parse_bool_option : Text → Option Bool
parse_bool_option value =
    if same value (bytes "true")
    then some true
    else if same value (bytes "false")
    then some false
    else none

unfoldable pub parse_go_bool : Text → Result Text Bool
parse_go_bool value =
    if is_one_of value
      (bytes "1" ∷ bytes "t" ∷ bytes "T" ∷ bytes "TRUE" ∷ bytes "true" ∷ bytes "True" ∷ [])
    then ok true
    else if is_one_of value
        (bytes "0" ∷ bytes "f" ∷ bytes "F" ∷ bytes "FALSE" ∷ bytes "false" ∷ bytes "False" ∷ [])
    then ok false
    else err value

-- Whether the value is negative, and what follows its sign.
abbrev pub sign_of : Text → Bool × Text
sign_of [] = (false, [])
sign_of (c ∷ s) = if c == b'-' then (true, s) else if c == b'+' then (false, s) else (false, c ∷ s)

-- The base, the digits, and whether a prefix selected the base.
abbrev pub base_of : Text → ℕ × Text × Bool
base_of [] = (10, [], false)
base_of (a ∷ []) = (10, a ∷ [], false)
base_of (a ∷ b ∷ s) =
    if lower a == b'0' && lower b == b'x'
    then (16, s, true)
    else if lower a == b'0' && lower b == b'o'
    then (8, s, true)
    else if lower a == b'0' && lower b == b'b'
    then (2, s, true)
    else if a == b'0'
    then (8, b ∷ s, true)
    else (10, a ∷ b ∷ s, false)

abbrev pub goes_on : Text → Bool
goes_on [] = false
goes_on (next ∷ _) = not (next == b'_')

-- The test of one byte; `before_ok` is that of an underscore's predecessor.
abbrev pub is_placed : Bool → ℕ → Text → Bool
is_placed before_ok byte rest = if byte == b'_' then before_ok && goes_on rest else true

unfoldable pub underscores_from : Bool → Text → Bool
underscores_from before_ok [] = true
underscores_from before_ok (byte ∷ rest) =
    is_placed before_ok byte rest && underscores_from (not (byte == b'_')) rest

unfoldable pub underscores_ok : Text → Bool → Bool
underscores_ok digits prefixed = underscores_from prefixed digits

abbrev pub starts_badly : Text → Bool
starts_badly [] = true
starts_badly (c ∷ _) = c == b'+' || c == b'-'

-- `0_i64.checked_sub_unsigned(magnitude)` and `i64::try_from(magnitude)`.
unfoldable pub with_sign : Bool → ℕ → Option ℤ
with_sign false n = if leb n 9223372036854775807 then some (pos n) else none
with_sign true zero = some (pos 0)
with_sign true (suc n) = if leb (suc n) 9223372036854775808 then some (negsuc n) else none

abbrev pub signed : Bool → Option ℕ → Option ℤ
signed negative none = none
signed negative (some n) = with_sign negative n

-- `none` where the source returns its error.
unfoldable pub go_int : Text → Option ℤ
go_int value =
    let (negative, unsigned) = sign_of value in
    let (radix, digits, prefixed) = base_of unsigned in
    let plain = filter (λ c. not (c == b'_')) digits in
    if not (underscores_ok digits prefixed)
    then none
    else if starts_badly plain
    then none
    else signed negative (u64_from_str_radix plain radix)

unfoldable pub parse_go_int : Text → Result Text ℤ
parse_go_int value = ok_or (go_int value) value

-- A sign is one that Rust's `i64::from_str` takes, with at least one digit after it.
unfoldable pub parse_int_option : Text → Option ℤ
parse_int_option value =
    let (negative, digits) = sign_of value in signed negative (u64_from_str_radix digits 10)

unfoldable pub parse_log_format : Text → Result Text LogFormat
parse_log_format value =
    if same value (bytes "text")
    then ok Sections.text
    else if same value (bytes "json")
    then ok Sections.json
    else err value

abbrev pub text_case_of : ℤ → Option TextCaseMode
text_case_of (pos zero) = some global_setting
text_case_of (pos (suc zero)) = some uppercase
text_case_of (pos (suc (suc zero))) = some as_is
text_case_of (pos (suc (suc (suc n)))) = none
text_case_of (negsuc n) = none

unfoldable pub parse_text_case : Text → Result Text TextCaseMode
parse_text_case value = do mode ← parse_go_int value; ok_or (text_case_of mode) value

abbrev pub push_icon_of : ℤ → Option PushIconBehavior
push_icon_of (pos zero) = some static
push_icon_of (pos (suc zero)) = some scroll
push_icon_of (pos (suc (suc zero))) = some fixed
push_icon_of (pos (suc (suc (suc n)))) = none
push_icon_of (negsuc n) = none

unfoldable pub parse_push_icon : Text → Result Text PushIconBehavior
parse_push_icon value = do mode ← parse_go_int value; ok_or (push_icon_of mode) value
