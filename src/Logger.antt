-- ===== src/Logger.antt =====
-- src/logger/mod.rs: the level and the format that are logged with. Installing the subscriber is not
-- modelled.
pub mod Levels
use awtrix_controller.Prelude.{
  ℕ, suc, zero, ◌-◌, ◌∷◌, ◌&&◌, ◌||◌, not, Bool, true, false, Option, none, some, [], leb, ltb,
  ◌==◌, all, unwrap_or, map, if◌then◌else◌,
}
use awtrix_controller.Prelude.Int.{ℤ, pos, negsuc, leb_ℤ, ◌+ℤ◌, i64_min, i64_max}
use awtrix_controller.Prelude.Text.{Text, bytes, same, is_ascii_digit}
use awtrix_controller.Prelude.Radix.{is_blank, u64_from_str_radix}
use awtrix_controller.Config.Sections.{LogFormat}

pub data LevelFilter : Type 0 where
  debug info warn error off : LevelFilter

-- `u8::to_ascii_uppercase`.
abbrev pub upper : ℕ → ℕ
upper c = if leb b'a' c && leb c b'z' then c - 32 else c

abbrev pub base_level : Text → Option ℤ
base_level name =
    if same name (bytes "DEBUG")
    then some (negsuc 3)
    else if same name (bytes "INFO")
    then some (pos 0)
    else if same name (bytes "WARN")
    then some (pos 4)
    else if same name (bytes "ERROR")
    then some (pos 8)
    else none

-- The name, and the offset with its sign.
unfoldable pub split_offset : Text → Text × Option (Bool × Text)
split_offset [] = ([], none)
split_offset (c ∷ s) =
    let (name, offset) = split_offset s in
    if c == b'+'
    then ([], some (false, s))
    else if c == b'-'
    then ([], some (true, s))
    else (c ∷ name, offset)

-- `i64::from_str` of a sign and digits.
abbrev pub signed_value : Bool → Option ℕ → Option ℤ
signed_value negative none = none
signed_value false (some n) = if leb n 9223372036854775807 then some (pos n) else none
signed_value true (some zero) = some (pos 0)
signed_value true (some (suc n)) = if leb (suc n) 9223372036854775808 then some (negsuc n) else none

-- `i64::checked_add`.
abbrev pub checked_add : ℤ → ℤ → Option ℤ
checked_add a b =
    let sum = a +ℤ b in if leb_ℤ i64_min sum && leb_ℤ sum i64_max then some sum else none

abbrev pub add_offset : ℤ → Option ℤ → Option ℤ
add_offset base none = none
add_offset base (some value) = checked_add base value

unfoldable pub with_offset : Option ℤ → Option (Bool × Text) → Option ℤ
with_offset none offset = none
with_offset (some base) none = some base
with_offset (some base) (some (negative, digits)) =
    if is_blank digits || not (all is_ascii_digit digits)
    then none
    else add_offset base (signed_value negative (u64_from_str_radix digits 10))

unfoldable pub slog_level : Text → Option ℤ
slog_level text =
    let (name, offset) = split_offset text in with_offset (base_level (map upper name)) offset

unfoldable pub filter_for_slog_level : ℤ → LevelFilter
filter_for_slog_level threshold =
    if leb_ℤ threshold (negsuc 3)
    then debug
    else if leb_ℤ threshold (pos 0)
    then info
    else if leb_ℤ threshold (pos 4)
    then warn
    else if leb_ℤ threshold (pos 8)
    then error
    else off

abbrev pub filter_or_info : Option ℤ → LevelFilter
filter_or_info none = info
filter_or_info (some threshold) = filter_for_slog_level threshold

unfoldable pub resolve_level : Text → LevelFilter
resolve_level text = filter_or_info (slog_level text)

unfoldable pub effective_level : Option Text → Option Text → LevelFilter
effective_level (some flag) environment = resolve_level flag
effective_level none none = resolve_level (bytes "info")
effective_level none (some environment) =
    if is_blank environment then resolve_level (bytes "info") else resolve_level environment

unfoldable pub effective_format : Option LogFormat → LogFormat → LogFormat
effective_format flag config = unwrap_or flag config
