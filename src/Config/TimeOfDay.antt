-- ===== src/Config/TimeOfDay.antt =====
-- src/config/time_of_day.rs: the two calendar formats of the configuration. A `u8` is a native
-- number that the constructors keep in range.
pub mod Dates
pub mod Digits
pub mod Formats
use awtrix_controller.Prelude.{
  ℕ, suc, zero, ◌-◌, ◌∷◌, ◌++◌, ◌&&◌, ◌||◌, not, Bool, true, false, Option, none, some, List, [],
  ltb, leb, ◌==◌, all, length, if◌then◌else◌, Result, ok, err, ok_or,
}
use awtrix_controller.Prelude.Text.{Text, bytes, is_ascii_digit}
use awtrix_controller.Prelude.Decimal.{show_ℕ, value_from}

pub record TimeOfDay : Type 0 where
  pub hour : ℕ
  pub minute : ℕ

pub record MonthDay : Type 0 where
  pub month : ℕ
  pub day : ℕ

pub record ParseError : Type 0 where
  pub value : Text
  pub expected : Text

-- `DAYS_IN_MONTH`.
abbrev pub days_in_month : List ℕ
days_in_month = 31 ∷ 29 ∷ 31 ∷ 30 ∷ 31 ∷ 30 ∷ 31 ∷ 31 ∷ 30 ∷ 31 ∷ 30 ∷ 31 ∷ []

-- `slice::get`.
unfoldable pub get : List ℕ → ℕ → Option ℕ
get [] i = none
get (x ∷ xs) zero = some x
get (x ∷ xs) (suc i) = get xs i

abbrev pub prefixed : ℕ → Option (Text × Text) → Option (Text × Text)
prefixed x none = none
prefixed x (some (a, b)) = some (x ∷ a, b)

-- `str::split_once`: the text before and after the first occurrence.
unfoldable pub split_once : ℕ → Text → Option (Text × Text)
split_once c [] = none
split_once c (x ∷ s) = let rest = split_once c s in if x == c then some ([], s) else prefixed x rest

-- `str::parse` of a text of digits as a `u8`.
unfoldable pub parse_u8 : Text → Option ℕ
parse_u8 s = let n = value_from 0 s in if leb n 255 then some n else none

-- `TimeOfDay::new`.
unfoldable pub new : ℕ → ℕ → Option TimeOfDay
new hour minute =
    if ltb hour 24 && ltb minute 60 then some (record { hour = hour; minute = minute }) else none

abbrev pub invalid_time : Text → ParseError
invalid_time value = record { value = value; expected = bytes "time of day (HH:MM)" }

abbrev pub invalid_date : Text → ParseError
invalid_date value = record { value = value; expected = bytes "date (MM-DD)" }

abbrev pub is_hour : Text → Bool
is_hour hour = ((length hour == 1) || (length hour == 2)) && all is_ascii_digit hour

abbrev pub is_two_digits : Text → Bool
is_two_digits part = (length part == 2) && all is_ascii_digit part

-- What follows the split of `TimeOfDay::from_str`.
unfoldable pub time_of_parts : ParseError → Text → Text → Result ParseError TimeOfDay
time_of_parts invalid hour minute =
    if not (is_hour hour) || not (is_two_digits minute) then err invalid else elim (parse_u8 hour) [
      | none ↦ err invalid
      | some h ↦ elim (parse_u8 minute) [ none ↦ err invalid | some m ↦ ok_or (new h m) invalid ]
    ]

unfoldable pub time_from_str : Text → Result ParseError TimeOfDay
time_from_str value = elim (split_once b':' value) [
  | none ↦ err (invalid_time value)
  | some (hour, minute) ↦ time_of_parts (invalid_time value) hour minute
]

-- `{:02}`.
unfoldable pub two_digits : ℕ → Text
two_digits n = if ltb n 10 then b'0' ∷ show_ℕ n else show_ℕ n

unfoldable pub display : TimeOfDay → Text
display t = two_digits t.hour ++ (b':' ∷ two_digits t.minute)

-- `usize::from(month).wrapping_sub(1)`.
abbrev pub month_index : ℕ → ℕ
month_index zero = 18446744073709551615
month_index (suc m) = m

-- What follows the split of `MonthDay::from_str`.
unfoldable pub date_of_parts : ParseError → Text → Text → Result ParseError MonthDay
date_of_parts invalid month day =
    if not (is_two_digits month) || not (is_two_digits day)
    then err invalid
    else elim (parse_u8 month) [
      | none ↦ err invalid
      | some m ↦ elim (parse_u8 day) [
        | none ↦ err invalid
        | some d ↦ elim (get days_in_month (month_index m)) [
          | none ↦ err invalid
          | some days ↦
              if (d == 0) || ltb days d then err invalid else ok (record { month = m; day = d })
        ]
      ]
    ]

unfoldable pub date_from_str : Text → Result ParseError MonthDay
date_from_str value = elim (split_once b'-' value) [
  | none ↦ err (invalid_date value)
  | some (month, day) ↦ date_of_parts (invalid_date value) month day
]
