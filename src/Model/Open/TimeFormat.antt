-- ===== src/Model/Open/TimeFormat.antt =====
-- src/model/enums.rs: `TimeFormat`, one of the open string enums that the macro declares.
use awtrix_controller.Prelude.{if◌then◌else◌}
use awtrix_controller.Prelude.Text.{Text, bytes, same}

pub data TimeFormat : Type 0 where
  twenty_four_hour_seconds twelve_hour_seconds twenty_four_hour twenty_four_hour_blinking :
      TimeFormat
  twelve_hour twelve_hour_blinking twelve_hour_am_pm twelve_hour_blinking_am_pm : TimeFormat
  other : Text → TimeFormat

unfoldable pub from_name : Text → TimeFormat
unfolding same
from_name name =
    if same name (bytes "%H:%M:%S")
    then twenty_four_hour_seconds
    else if same name (bytes "%l:%M:%S")
    then twelve_hour_seconds
    else if same name (bytes "%H:%M")
    then twenty_four_hour
    else if same name (bytes "%H %M")
    then twenty_four_hour_blinking
    else if same name (bytes "%l:%M")
    then twelve_hour
    else if same name (bytes "%l %M")
    then twelve_hour_blinking
    else if same name (bytes "%l:%M %p")
    then twelve_hour_am_pm
    else if same name (bytes "%l %M %p")
    then twelve_hour_blinking_am_pm
    else other name

unfoldable pub as_str : TimeFormat → Text
as_str twenty_four_hour_seconds = bytes "%H:%M:%S"
as_str twelve_hour_seconds = bytes "%l:%M:%S"
as_str twenty_four_hour = bytes "%H:%M"
as_str twenty_four_hour_blinking = bytes "%H %M"
as_str twelve_hour = bytes "%l:%M"
as_str twelve_hour_blinking = bytes "%l %M"
as_str twelve_hour_am_pm = bytes "%l:%M %p"
as_str twelve_hour_blinking_am_pm = bytes "%l %M %p"
as_str (other name) = name
