-- ===== src/DayNight.antt =====
-- src/daynight/mod.rs: day and night from sunrise and sunset.
pub mod Sun
pub mod Steady
use awtrix_controller.Prelude.{
  ℕ, suc, zero, ◌∷◌, ◌++◌, ◌&&◌, ◌||◌, not, Bool, true, false, Option, none, some, List, [], ltb,
  leb, ◌==◌, if◌then◌else◌,
}
use awtrix_controller.Prelude.Text.{Text, bytes}
use awtrix_controller.Instants.{Timestamp}
use awtrix_controller.Clock.{Date, Calendar, tomorrow, and_then, next_local_midnight}

pub data Mode : Type 0 where
  day night : Mode

abbrev pub mode_str : Mode → Text
mode_str day = bytes "day"
mode_str night = bytes "night"

-- `mode as u8` and `Mode::from_u8`.
abbrev pub as_u8 : Mode → ℕ
as_u8 day = 0
as_u8 night = 1

abbrev pub from_u8 : ℕ → Mode
from_u8 v = if v == 0 then day else night

-- The derived `!=`.
abbrev pub differs : Mode → Mode → Bool
differs day day = false
differs night night = false
differs _ _ = true

-- `DayNight`; `called` are the modes that `on_change` was called with.
pub record DayNight : Type 0 where
  pub mode : ℕ
  pub called : List Mode

-- `with_sun_function`: night until it starts.
unfoldable pub with_sun_function : DayNight
with_sun_function = record { mode = as_u8 night; called = [] }

unfoldable pub current_mode : DayNight → Mode
current_mode d = from_u8 d.mode

-- `start`'s test and `update`'s.
abbrev pub start_mode : Timestamp → Timestamp × Timestamp → Mode
start_mode now (rise, set) = if ltb now rise || leb set now then night else day

abbrev pub sun_mode : Timestamp → Option (Timestamp × Timestamp) → Mode
sun_mode now none = night
sun_mode now (some (rise, set)) = if leb rise now && ltb now set then day else night

abbrev pub later_of : Timestamp → Timestamp → Timestamp
later_of a b = if leb a b then b else a

-- `sun_on` is the `SunFunction` at the controller's coordinates.
module _ (cal : Calendar) (sun_on : Date → Option (Timestamp × Timestamp)) where
  abbrev pub rise_or_midnight : Timestamp → Option (Timestamp × Timestamp) → Timestamp
  rise_or_midnight now none = next_local_midnight cal now
  rise_or_midnight now (some (tomorrow_rise, _)) = tomorrow_rise

  unfoldable pub next_event_after : Timestamp → Timestamp → Timestamp → Timestamp
  next_event_after now rise set =
      if ltb now rise
      then rise
      else if ltb now set
      then set
      else rise_or_midnight now (and_then (tomorrow cal (cal.local_date now)) sun_on)

  -- `start`: the controller, and the instant that is scheduled.
  unfoldable pub start : DayNight → Timestamp → DayNight × Timestamp
  start d now = elim (sun_on (cal.local_date now)) [
    | some (rise, set) ↦
        (record d { mode = as_u8 (start_mode now (rise, set)) }, next_event_after now rise set)
    | none ↦ (record d { mode = as_u8 night }, next_local_midnight cal now)
  ]

  -- `update`, given the time that the clock shows.
  unfoldable pub update : DayNight → Timestamp → Timestamp → Option Mode × DayNight
  update d clock_now due =
      let now = later_of clock_now due in
      let mode = sun_mode now (sun_on (cal.local_date now)) in
      (if differs (from_u8 d.mode) mode then some mode else none, record d { mode = as_u8 mode })

  unfoldable pub reschedule : Timestamp → Timestamp
  reschedule fired = elim (sun_on (cal.local_date fired)) [
    | none ↦ next_local_midnight cal fired
    | some (rise, set) ↦ next_event_after fired rise set
  ]

  -- `transition` of a controller that lives.
  unfoldable pub transition : DayNight → Timestamp → Timestamp → DayNight
  transition d clock_now due =
      let (changed, d') = update d clock_now due in
      elim changed [ none ↦ d' | some mode ↦ record d' { called = d'.called ++ mode ∷ [] } ]
