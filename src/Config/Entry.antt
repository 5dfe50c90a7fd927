-- ===== src/Config/Entry.antt =====
-- src/config/mod.rs: the validation of one scheduled notification, which is dropped when a setting
-- is not valid. The warnings are left out.
pub mod Kept
pub mod Given
use awtrix_controller.Prelude.{
  ◌∷◌, ◌&&◌, ◌||◌, not, Bool, true, false, Option, none, some, List, [], any, all, unwrap_or,
  if◌then◌else◌, Result, ok, err,
}
use awtrix_controller.Prelude.Int.{ℤ, pos, eqb_ℤ, leb_ℤ}
use awtrix_controller.Prelude.Text.{Text, bytes, same}
use awtrix_controller.Config.Defaults.{
  default_scheduled_notification_duration, default_scheduled_notification_icon,
  default_scheduled_notification_scroll_speed, default_scheduled_notification_time,
}
use awtrix_controller.Config.File.{FileScheduledNotification}
use awtrix_controller.Config.Sections.{
  Repeat, daily, weekly, monthly, yearly, ScheduledNotificationConfig,
}
use awtrix_controller.Config.TimeOfDay.{time_from_str, date_from_str}

abbrev pub is_empty : Text → Bool
is_empty [] = true
is_empty (_ ∷ _) = false

abbrev pub is_ok {ℓ κ} : {E : Type ℓ} {A : Type κ} → Result E A → Bool
is_ok (ok _) = true
is_ok (err _) = false

-- Absent and 0 are the default.
unfoldable pub non_zero_or : Option ℤ → ℤ → ℤ
non_zero_or none default = default
non_zero_or (some given) default = if eqb_ℤ given (pos 0) then default else given

unfoldable pub non_empty_or : Text → Text → Text
non_empty_or [] default = default
non_empty_or (c ∷ value) default = c ∷ value

-- `WEEKDAYS`.
abbrev pub weekday_names : List Text
weekday_names =
    bytes "monday"
    ∷ bytes "tuesday"
    ∷ bytes "wednesday"
    ∷ bytes "thursday"
    ∷ bytes "friday"
    ∷ bytes "saturday"
    ∷ bytes "sunday"
    ∷ []

abbrev pub is_weekday : Text → Bool
is_weekday name = any (λ known. same name known) weekday_names

abbrev pub has_items : List Text → Bool
has_items [] = false
has_items (_ ∷ _) = true

abbrev pub repeat_if : Bool → Repeat → Option Repeat
repeat_if b repeat = if b then some repeat else none

-- `(1..=31).contains`.
abbrev pub is_day : ℤ → Bool
is_day day = leb_ℤ (pos 1) day && leb_ℤ day (pos 31)

-- The `match` on the name of the repetition.
unfoldable pub repeat_of : FileScheduledNotification → Option Repeat
repeat_of entry =
    if same entry.repeat (bytes "daily")
    then some daily
    else if same entry.repeat (bytes "weekly")
    then repeat_if (has_items entry.weekdays && all is_weekday entry.weekdays) weekly
    else if same entry.repeat (bytes "monthly")
    then repeat_if (is_day (unwrap_or entry.day (pos 0))) monthly
    else if same entry.repeat (bytes "yearly")
    then repeat_if (is_ok (date_from_str entry.date)) yearly
    else none

-- The entry with its defaults.
unfoldable pub completed : FileScheduledNotification → Repeat → ScheduledNotificationConfig
completed entry repeat = record {
  name = entry.name;
  message = entry.message;
  repeat = repeat;
  date = entry.date;
  day = unwrap_or entry.day (pos 0);
  weekdays = entry.weekdays;
  time = non_empty_or entry.time default_scheduled_notification_time;
  enabled = unwrap_or entry.enabled true;
  duration = non_zero_or entry.duration default_scheduled_notification_duration;
  icon = non_empty_or entry.icon default_scheduled_notification_icon;
  rainbow = unwrap_or entry.rainbow false;
  scroll_speed = non_zero_or entry.scroll_speed default_scheduled_notification_scroll_speed;
  wakeup = unwrap_or entry.wakeup true;
  rtttl = entry.rtttl;
}

unfoldable pub scheduled_notification :
    FileScheduledNotification → Option ScheduledNotificationConfig
scheduled_notification entry = elim (repeat_of entry) [
  | none ↦ none
  | some repeat ↦
      if not (is_empty entry.time) && not (is_ok (time_from_str entry.time))
      then none
      else some (completed entry repeat)
]
