-- ===== src/DayNight/Steady.antt =====
-- src/daynight/mod.rs: the mode between the events that are scheduled.
use awtrix_controller.Prelude.{
  suc, ◌<◌, ◌≤◌, ◌≡◌, refl, sym, ap, ◌∙◌, ◌∷◌, ◌++◌, Option, none, some, [], arith, if◌then◌else◌,
}
use mathlib.Core.Path.{subst}
use awtrix_controller.Instants.{Timestamp}
use awtrix_controller.Clock.{Date, Calendar, resolve_local}
use awtrix_controller.DayNight.{
  as_u8, from_u8, differs, DayNight, later_of, start, update, reschedule, transition, current_mode,
}
use awtrix_controller.DayNight.Sun.{
  IsRegular, mode_at, start-mode_at, start-reschedule, reschedule-none, reschedule-some,
  steady_without_sun, steady_with_sun, from_u8-as_u8,
}

-- In a zone and under a sun that are regular (`IsRegular`), and while the next local midnight exists,
-- the mode that the sun gives is the same from an instant until the event that is scheduled after it;
-- and a controller that starts at the instant takes that mode and schedules that event.
pub reschedule-mode_at :
    (cal : Calendar) (sun_on : Date → Option (Timestamp × Timestamp)) (d : DayNight)
    (now t i : Timestamp)
    → IsRegular cal sun_on
    → cal.local_date now < cal.last_date
    → resolve_local cal (suc (cal.local_date now)) 0 ≡ some i
    → now ≤ t
    → t < reschedule cal sun_on now
    → (mode_at cal sun_on t ≡ mode_at cal sun_on now)
      × (current_mode (start cal sun_on d now).0 ≡ mode_at cal sun_on t)
      × ((start cal sun_on d now).1 ≡ reschedule cal sun_on now)
unfolding current_mode
reschedule-mode_at cal sun_on d now t i reg last next a c = (
  steady (sun_on (cal.local_date now)) refl,
  ap from_u8 (start-mode_at cal sun_on d now)
      ∙ from_u8-as_u8 (mode_at cal sun_on now)
      ∙ sym (steady (sun_on (cal.local_date now)) refl),
  start-reschedule cal sun_on d now,
)
  where
    steady :
        (o : Option (Timestamp × Timestamp))
        → sun_on (cal.local_date now) ≡ o
        → mode_at cal sun_on t ≡ mode_at cal sun_on now
    steady none h =
        steady_without_sun cal sun_on reg now t i a last next h
          (subst (λ x. t < x) (reschedule-none cal sun_on now h) c)
    steady (some (rise, set)) h =
        steady_with_sun cal sun_on reg now t i a last next rise set h
          (subst (λ x. t < x) (reschedule-some cal sun_on now rise set h) c)

transition_eq :
    (cal : Calendar) (sun_on : Date → Option (Timestamp × Timestamp)) (d : DayNight)
    (clock_now due : Timestamp)
    → let mode = mode_at cal sun_on (later_of clock_now due) in
      transition cal sun_on d clock_now due ≡ record {
        mode = as_u8 mode;
        called = if differs (current_mode d) mode then d.called ++ mode ∷ [] else d.called;
      }
unfolding transition update current_mode
transition_eq cal sun_on d clock_now due = ground arith

later_of_ge : (a b : Timestamp) → b ≤ later_of a b
later_of_ge a b = ground arith

-- In a zone and under a sun that are regular (`IsRegular`), and while the local midnight after the due
-- instant exists, a transition that fires before the next event leaves the mode that every instant
-- from then until that event has, however the clock reads meanwhile, and it reports the mode exactly
-- when it differs from the one before.
pub transition-mode_at :
    (cal : Calendar) (sun_on : Date → Option (Timestamp × Timestamp)) (d : DayNight)
    (clock_now due t i : Timestamp)
    → IsRegular cal sun_on
    → cal.local_date due < cal.last_date
    → resolve_local cal (suc (cal.local_date due)) 0 ≡ some i
    → later_of clock_now due ≤ t
    → t < reschedule cal sun_on due
    → let d' = transition cal sun_on d clock_now due in
      let mode = mode_at cal sun_on t in
      (current_mode d' ≡ mode)
      × (d'.called ≡ (if differs (current_mode d) mode then d.called ++ mode ∷ [] else d.called))
unfolding current_mode
transition-mode_at cal sun_on d clock_now due t i reg last next a c =
    let fire = later_of clock_now due in
    let from_due = later_of_ge clock_now due in
    let (at_t, _, _) =
      reschedule-mode_at cal sun_on d due t i reg last next (omega (arith, from_due, a)) c in
    let (at_fire, _, _) =
      reschedule-mode_at cal sun_on d due fire i reg last next from_due (omega (arith, a, c)) in
    let same : mode_at cal sun_on fire ≡ mode_at cal sun_on t = at_fire ∙ sym at_t in
    rw (transition_eq cal sun_on d clock_now due)
      (rw same (from_u8-as_u8 (mode_at cal sun_on t), refl))
