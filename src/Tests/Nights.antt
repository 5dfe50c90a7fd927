-- ===== src/Tests/Nights.antt =====
-- Runs of the energy-saving window, of day and night and of scheduled notifications in a zone without clock changes.
use awtrix_controller.Prelude.{
  ◌/◌, ◌<◌, ◌≤◌, ◌≤◌, ◌≡◌, refl, ◌∷◌, true, false, some, [], arith, if◌then◌else◌, Option,
}
use awtrix_controller.Clock.{Date, resolve_local}
use awtrix_controller.Instants.{Timestamp}
use awtrix_controller.DayNight
use awtrix_controller.DayNight.Sun.{IsRegular, mode_at}
use awtrix_controller.DayNight.Steady.{reschedule-mode_at}
use awtrix_controller.Clock.{Date, resolve_local}
use awtrix_controller.Notification.{next_weekly_occurrence, first_after, weekday_of}
use awtrix_controller.Notification.First.{next_weekly_occurrence_first}
use awtrix_controller.EnergySaving
use awtrix_controller.Tests.Calendars.{at, utc, utc-IsOrdinary}
use awtrix_controller.EnergySaving.{Window, is_active, next_transition, transition, differ, start}
use awtrix_controller.EnergySaving.Steady.{transition-is_active}

-- From 23:00 to 05:00.
abbrev night : Window
night = record { start = 1380; end = 300 }

evening : next_transition utc night (at 10 720) ≡ some (at 10 1380)
unfolding next_transition EnergySaving.search EnergySaving.boundary_after EnergySaving.resolve
evening = refl

abbrev asleep : EnergySaving.EnergySaving
asleep = record { window = night; active = false; called = [] }

morning : next_transition utc night (at 10 1380) ≡ some (at 11 300)
unfolding next_transition EnergySaving.search EnergySaving.boundary_after EnergySaving.resolve
morning = refl

transition-is_active_example :
    let es' = transition utc asleep (at 10 1379) (at 10 1380) in
    let active = is_active utc night (at 11 299) in
    (es'.active ≡ active)
    × (es'.active ≡ (start utc asleep (at 11 299)).0.active)
    × (es'.called ≡ (if differ false active then active ∷ [] else []))
transition-is_active_example =
    transition-is_active utc asleep (at 10 1379) (at 10 1380) (at 11 300) (at 11 299) utc-IsOrdinary
      morning (omega arith) (omega arith)

night_active : is_active utc night (at 11 299) ≡ true
unfolding is_active EnergySaving.resolve
night_active = refl

-- The sun rises at 06:00 and sets at 18:00.
abbrev equator : Date → Option (Timestamp × Timestamp)
equator d = some (at d 360, at d 1080)

equator-IsRegular : IsRegular utc equator
equator-IsRegular = record {
  local_mono = λ t t' h. omega arith;
  midnight = midnight;
  rise_date = rise_date;
  set_date = set_date;
}
  where
    midnight :
        (d : Date) (i t : Timestamp)
        → resolve_local utc d 0 ≡ some i
        → t < i
        → t / 86400000000000 < d
    midnight d i t h l = ground arith

    rise_date :
        (d : Date) (rise set : Timestamp) → equator d ≡ some (rise, set) → rise / 86400000000000 ≡ d
    rise_date d rise set h = ground arith

    set_date :
        (d : Date) (rise set : Timestamp) → equator d ≡ some (rise, set) → set / 86400000000000 ≡ d
    set_date d rise set h = ground arith

until_sunset : at 10 1079 < DayNight.reschedule utc equator (at 10 720)
unfolding DayNight.reschedule DayNight.next_event_after
until_sunset = omega arith

reschedule-mode_at_example :
    (mode_at utc equator (at 10 1079) ≡ mode_at utc equator (at 10 720))
    × (DayNight.current_mode (DayNight.start utc equator DayNight.with_sun_function (at 10 720)).0
        ≡ mode_at utc equator (at 10 1079))
    × ((DayNight.start utc equator DayNight.with_sun_function (at 10 720)).1
        ≡ DayNight.reschedule utc equator (at 10 720))
reschedule-mode_at_example =
    reschedule-mode_at utc equator DayNight.with_sun_function (at 10 720) (at 10 1079) (at 11 0)
      equator-IsRegular (omega arith) refl (omega arith) until_sunset

until_sunrise : at 11 359 < DayNight.reschedule utc equator (at 10 1080)
unfolding DayNight.reschedule DayNight.next_event_after
until_sunrise = omega arith

-- The first date is a Monday, so that the tenth is a Thursday; the next Wednesday is the sixteenth.
next_weekly_occurrence_first_example :
    let next = next_weekly_occurrence utc 0 (at 10 720) 2 480 in
    (at 10 720 < next)
    × ((y : Date) × (weekday_of 0 y ≡ 2) × (resolve_local utc y 480 ≡ some next))
    × (next ≤ at 23 480)
next_weekly_occurrence_first_example =
    next_weekly_occurrence_first utc 0 2 (at 10 720) (at 16 480) (at 23 480) (at 23 480) 480 16 23
      utc-IsOrdinary (omega arith) (omega arith) (omega arith) (omega arith) refl refl refl refl
      refl (omega arith)

wednesday : next_weekly_occurrence utc 0 (at 10 720) 2 480 ≡ at 16 480
unfolding next_weekly_occurrence first_after
wednesday = refl
