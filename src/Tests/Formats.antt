-- ===== src/Tests/Formats.antt =====
-- Runs of the calendar formats and of the open names.
use awtrix_controller.Prelude.{◌++◌, List, [], ◌≡◌, ◌↔◌, ◌<◌, ◌⊎◌, ◌∷◌, refl, ok, err}
use awtrix_controller.Prelude.Text.{Text, bytes}
use awtrix_controller.Prelude.Decimal.{value_from}
use awtrix_controller.Config.TimeOfDay.{
  TimeOfDay, MonthDay, time_from_str, display, date_from_str, two_digits,
}
use awtrix_controller.Config.TimeOfDay
use awtrix_controller.Config.TimeOfDay.Dates.{IsDate, date_from_str_iff}
use awtrix_controller.Config.TimeOfDay.Formats.{time_from_str_iff}
use awtrix_controller.Prelude.Int.{pos}
use awtrix_controller.Model.Stats.{Value}

abbrev seven : TimeOfDay
seven = record { hour = 7; minute = 0 }

time_from_str_iff_example : (time_from_str (bytes "7:00") ≡ ok seven) ↔ (
    (7 < 24) × (0 < 60) × ((bytes "7:00" ≡ display seven) ⊎ (b'0' ∷ bytes "7:00" ≡ display seven)))
time_from_str_iff_example = time_from_str_iff (bytes "7:00") seven

seven_parses : time_from_str (bytes "7:00") ≡ ok seven
unfolding time_from_str TimeOfDay.time_of_parts TimeOfDay.split_once TimeOfDay.parse_u8
    TimeOfDay.new value_from
seven_parses = refl

abbrev leap_day : MonthDay
leap_day = record { month = 2; day = 29 }

date_from_str_iff_example :
    (date_from_str (bytes "02-29") ≡ ok leap_day)
    ↔ (IsDate leap_day × (bytes "02-29" ≡ two_digits 2 ++ b'-' ∷ two_digits 29))
date_from_str_iff_example = date_from_str_iff (bytes "02-29") leap_day

leap_day_parses : date_from_str (bytes "02-29") ≡ ok (record { month = 2; day = 29 })
unfolding date_from_str TimeOfDay.date_of_parts TimeOfDay.split_once TimeOfDay.parse_u8
    TimeOfDay.get value_from
leap_day_parses = refl

april_31_fails :
    date_from_str (bytes "04-31")
    ≡ err (record { value = bytes "04-31"; expected = bytes "date (MM-DD)" })
unfolding date_from_str TimeOfDay.date_of_parts TimeOfDay.split_once TimeOfDay.parse_u8
    TimeOfDay.get value_from
april_31_fails = refl

-- A null, an unknown key and a value.
abbrev entries : List (Text × Value)
entries =
    (bytes "bat", Value.null)
    ∷ (bytes "novel", Value.int (pos 1))
    ∷ (bytes "bri", Value.int (pos 40))
    ∷ []
