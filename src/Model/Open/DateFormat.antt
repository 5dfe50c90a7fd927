-- ===== src/Model/Open/DateFormat.antt =====
-- src/model/enums.rs: `DateFormat`, one of the open string enums that the macro declares.
use awtrix_controller.Prelude.{if◌then◌else◌}
use awtrix_controller.Prelude.Text.{Text, bytes, same}

pub data DateFormat : Type 0 where
  day_month_year day_month year_month_day month_day month_day_year month_day_slash : DateFormat
  day_month_year_slash day_month_slash month_day_year_dash : DateFormat
  other : Text → DateFormat

unfoldable pub from_name : Text → DateFormat
unfolding same
from_name name =
    if same name (bytes "%d.%m.%y")
    then day_month_year
    else if same name (bytes "%d.%m")
    then day_month
    else if same name (bytes "%y-%m-%d")
    then year_month_day
    else if same name (bytes "%m-%d")
    then month_day
    else if same name (bytes "%m/%d/%y")
    then month_day_year
    else if same name (bytes "%m/%d")
    then month_day_slash
    else if same name (bytes "%d/%m/%y")
    then day_month_year_slash
    else if same name (bytes "%d/%m")
    then day_month_slash
    else if same name (bytes "%m-%d-%y")
    then month_day_year_dash
    else other name

unfoldable pub as_str : DateFormat → Text
as_str day_month_year = bytes "%d.%m.%y"
as_str day_month = bytes "%d.%m"
as_str year_month_day = bytes "%y-%m-%d"
as_str month_day = bytes "%m-%d"
as_str month_day_year = bytes "%m/%d/%y"
as_str month_day_slash = bytes "%m/%d"
as_str day_month_year_slash = bytes "%d/%m/%y"
as_str day_month_slash = bytes "%d/%m"
as_str month_day_year_dash = bytes "%m-%d-%y"
as_str (other name) = name
