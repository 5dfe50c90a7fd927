-- ===== src/DayNight/Sun.antt =====
-- src/daynight/mod.rs: the mode that the sun gives an instant, until the next event of the sun or the
-- next midnight.
use awtrix_controller.Prelude.{
  suc, ◌<◌, ◌≤◌, ◌≡◌, refl, sym, ap, ◌∙◌, inl, inr, true, false, Option, none, some, arith, ltb,
  leb, Option-cases, Bool-cases,
}
use mathlib.Core.Path.{subst}
use awtrix_controller.Instants.{Timestamp}
use awtrix_controller.Clock.{Date, Calendar, tomorrow, resolve_local, next_local_midnight}
use awtrix_controller.DayNight.{
  Mode, day, night, as_u8, from_u8, DayNight, sun_mode, rise_or_midnight, next_event_after, start,
  reschedule,
}

-- A zone whose local date never goes back and in which a date starts at its midnight, and a sun that
-- rises and sets on the local date that it is asked for.
pub record IsRegular (cal : Calendar) (sun_on : Date → Option (Timestamp × Timestamp))
    : Type 0 where
  pub local_mono : (t t' : Timestamp) → t ≤ t' → cal.local_date t ≤ cal.local_date t'
  pub midnight :
      (d : Date) (i t : Timestamp) → resolve_local cal d 0 ≡ some i → t < i → cal.local_date t < d
  pub rise_date :
      (d : Date) (rise set : Timestamp) → sun_on d ≡ some (rise, set) → cal.local_date rise ≡ d
  pub set_date :
      (d : Date) (rise set : Timestamp) → sun_on d ≡ some (rise, set) → cal.local_date set ≡ d

pub from_u8-as_u8 : (m : Mode) → from_u8 (as_u8 m) ≡ m
from_u8-as_u8 day = refl
from_u8-as_u8 night = refl

module _ (cal : Calendar) (sun_on : Date → Option (Timestamp × Timestamp)) where
  -- The mode that an instant has by the sun of its local date.
  abbrev pub mode_at : Timestamp → Mode
  mode_at t = sun_mode t (sun_on (cal.local_date t))

  pub start-mode_at :
      (d : DayNight) (now : Timestamp) → (start cal sun_on d now).0.mode ≡ as_u8 (mode_at now)
  unfolding start
  start-mode_at d now = elim (Option-cases (sun_on (cal.local_date now))) [
    | inl h ↦ rw (h, start) refl
    | inr ((rise, set), h) ↦ rw (h, start) (ground arith)
  ]

  pub start-reschedule :
      (d : DayNight) (now : Timestamp) → (start cal sun_on d now).1 ≡ reschedule cal sun_on now
  unfolding start reschedule
  start-reschedule d now = elim (Option-cases (sun_on (cal.local_date now))) [
    | inl h ↦ rw (h, start, reschedule) refl
    | inr ((rise, set), h) ↦ rw (h, start, reschedule) refl
  ]

  pub reschedule-none :
      (now : Timestamp)
      → sun_on (cal.local_date now) ≡ none
      → reschedule cal sun_on now ≡ next_local_midnight cal now
  unfolding reschedule
  reschedule-none now h = rw (h, reschedule) refl

  pub reschedule-some :
      (now rise set : Timestamp)
      → sun_on (cal.local_date now) ≡ some (rise, set)
      → reschedule cal sun_on now ≡ next_event_after cal sun_on now rise set
  unfolding reschedule
  reschedule-some now rise set h = rw (h, reschedule) refl

  next_midnight_eq :
      (now i : Timestamp)
      → tomorrow cal (cal.local_date now) ≡ some (suc (cal.local_date now))
      → resolve_local cal (suc (cal.local_date now)) 0 ≡ some i
      → next_local_midnight cal now ≡ i
  unfolding next_local_midnight
  next_midnight_eq now i h k = rw h (rw k refl)

  next_rise :
      (now rise set : Timestamp)
      → ltb now rise ≡ true
      → next_event_after cal sun_on now rise set ≡ rise
  unfolding next_event_after
  next_rise now rise set b = rw b refl

  next_set :
      (now rise set : Timestamp)
      → ltb now rise ≡ false
      → ltb now set ≡ true
      → next_event_after cal sun_on now rise set ≡ set
  unfolding next_event_after
  next_set now rise set b b' = rw b (rw b' refl)

  next_tomorrow :
      (now rise set : Timestamp)
      → ltb now rise ≡ false
      → ltb now set ≡ false
      → cal.local_date now < cal.last_date
      → next_event_after cal sun_on now rise set
        ≡ rise_or_midnight cal sun_on now (sun_on (suc (cal.local_date now)))
  unfolding next_event_after
  next_tomorrow now rise set b b' l =
      let there : ltb (cal.local_date now) cal.last_date ≡ true = ground arith in
      rw b (rw b' (rw there refl))

  night-none : (t : Timestamp) → sun_on (cal.local_date t) ≡ none → mode_at t ≡ night
  night-none t h = rw h refl

  -- The same date, and the same side of the events.
  night_before :
      (t rise set : Timestamp)
      → sun_on (cal.local_date t) ≡ some (rise, set)
      → t < rise
      → mode_at t ≡ night
  night_before t rise set h l = rw h (ground arith)

  night_after :
      (t rise set : Timestamp)
      → sun_on (cal.local_date t) ≡ some (rise, set)
      → set ≤ t
      → mode_at t ≡ night
  night_after t rise set h l = rw h (ground arith)

  day_between :
      (t rise set : Timestamp)
      → sun_on (cal.local_date t) ≡ some (rise, set)
      → rise ≤ t
      → t < set
      → mode_at t ≡ day
  day_between t rise set h l m = rw h (ground arith)

  -- The mode of an instant that has the date of another whose sun is known.
  module _ (reg : IsRegular cal sun_on) (now t i : Timestamp) (a : now ≤ t)
      (not_last : cal.local_date now < cal.last_date)
      (next : resolve_local cal (suc (cal.local_date now)) 0 ≡ some i) where
    midnight_is : next_local_midnight cal now ≡ i
    midnight_is = next_midnight_eq now i (ground (arith, not_last)) next

    same_day : cal.local_date t ≤ cal.local_date now → cal.local_date t ≡ cal.local_date now
    same_day l = let mono = reg.local_mono now t a in omega (arith, l, mono)

    -- Before the next midnight, the date is still the same.
    until_midnight : t < next_local_midnight cal now → cal.local_date t ≡ cal.local_date now
    until_midnight c =
        let c' : t < i = subst (λ x. t < x) midnight_is c in
        let l = reg.midnight (suc (cal.local_date now)) i t next c' in same_day (omega (arith, l))

    by_date :
        cal.local_date t ≡ cal.local_date now
        → sun_on (cal.local_date t) ≡ sun_on (cal.local_date now)
    by_date e = ap sun_on e

    pub steady_without_sun :
        sun_on (cal.local_date now) ≡ none
        → t < next_local_midnight cal now
        → mode_at t ≡ mode_at now
    steady_without_sun h c = night-none t (by_date (until_midnight c) ∙ h) ∙ sym (night-none now h)

    steady_at_night :
        (rise set : Timestamp)
        → sun_on (cal.local_date now) ≡ some (rise, set)
        → set ≤ now
        → (tomorrow_sun : Option (Timestamp × Timestamp))
        → sun_on (suc (cal.local_date now)) ≡ tomorrow_sun
        → t < rise_or_midnight cal sun_on now tomorrow_sun
        → mode_at t ≡ night
    steady_at_night rise set h l none k c =
        night_after t rise set (by_date (until_midnight c) ∙ h) (omega (arith, l, a))
    steady_at_night rise set h l (some (rise', set')) k c =
        let rises = reg.rise_date (suc (cal.local_date now)) rise' set' k in
        let mono = reg.local_mono t rise' (omega (arith, c)) in
        elim (Bool-cases (leb (cal.local_date t) (cal.local_date now))) [
          | inl b ↦
              night_after t rise set (by_date (same_day (ground arith)) ∙ h) (omega (arith, l, a))
          | inr b ↦
              let e : cal.local_date t ≡ suc (cal.local_date now) = ground (arith, rises, mono) in
              night_before t rise' set' (ap sun_on e ∙ k) c
        ]

    pub steady_with_sun :
        (rise set : Timestamp)
        → sun_on (cal.local_date now) ≡ some (rise, set)
        → t < next_event_after cal sun_on now rise set
        → mode_at t ≡ mode_at now
    steady_with_sun rise set h c = elim (Bool-cases (ltb now rise)) [
      | inl b ↦
          let c' : t < rise = subst (λ x. t < x) (next_rise now rise set b) c in
          let mono = reg.local_mono t rise (omega (arith, c')) in
          let on = reg.rise_date (cal.local_date now) rise set h in
          let e = same_day (omega (arith, mono, on)) in
          night_before t rise set (by_date e ∙ h) c'
          ∙ sym (night_before now rise set h (ground arith))
      | inr b ↦ elim (Bool-cases (ltb now set)) [
        | inl b' ↦
            let c' : t < set = subst (λ x. t < x) (next_set now rise set b b') c in
            let mono = reg.local_mono t set (omega (arith, c')) in
            let on = reg.set_date (cal.local_date now) rise set h in
            let e = same_day (omega (arith, mono, on)) in
            day_between t rise set (by_date e ∙ h) (ground (arith, a)) c'
            ∙ sym (day_between now rise set h (ground arith) (ground arith))
        | inr b' ↦
            let c' = subst (λ x. t < x) (next_tomorrow now rise set b b' not_last) c in
            steady_at_night rise set h (ground arith) (sun_on (suc (cal.local_date now))) refl c'
            ∙ sym (night_after now rise set h (ground arith))
      ]
    ]
