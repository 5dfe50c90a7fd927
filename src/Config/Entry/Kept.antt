-- ===== src/Config/Entry/Kept.antt =====
-- src/config/mod.rs: what holds of a scheduled notification that is kept.
use awtrix_controller.Prelude.{
  inl, inr, ◌≡◌, refl, ◌∷◌, ◌&&◌, not, Bool, true, false, some, [], arith, all, Bool-cases,
  Option-cases,
}
use mathlib.Core.Path.{subst}
use mathlib.Core.Option.{some-injective, none-ne-some}
use awtrix_controller.Prelude.Text.{Text, bytes, same}
use awtrix_controller.Config.Defaults.{default_scheduled_notification_time}
use awtrix_controller.Config.File.{FileScheduledNotification}
use awtrix_controller.Config.Sections.{
  Repeat, daily, weekly, monthly, yearly, ScheduledNotificationConfig,
}
use awtrix_controller.Config.TimeOfDay.{time_from_str, date_from_str}
use awtrix_controller.Config.TimeOfDay
use awtrix_controller.Prelude.Decimal.{value_from}
use awtrix_controller.Config.Entry.{
  is_empty, is_ok, non_empty_or, has_items, is_weekday, is_day, repeat_if, repeat_of, completed,
  scheduled_notification,
}

-- What each repetition needs.
abbrev pub IsRepeatValid : ScheduledNotificationConfig → Repeat → Type 0
IsRepeatValid c daily = Unit
IsRepeatValid c weekly = (has_items c.weekdays ≡ true) × (all is_weekday c.weekdays ≡ true)
IsRepeatValid c monthly = is_day c.day ≡ true
IsRepeatValid c yearly = is_ok (date_from_str c.date) ≡ true

abbrev pub IsEntryValid : ScheduledNotificationConfig → Type 0
IsEntryValid c = IsRepeatValid c c.repeat × (is_ok (time_from_str c.time) ≡ true)

pub repeat_if_lem : (b : Bool) (r s : Repeat) → repeat_if b r ≡ some s → (b ≡ true) × (r ≡ s)
repeat_if_lem true r s h = (refl, some-injective r s h)
repeat_if_lem false r s h = absurd (none-ne-some s h)

module _ (entry : FileScheduledNotification) (r : Repeat) (h : repeat_of entry ≡ some r) where
  as_repeat :
      (b : Bool) (r' : Repeat)
      → repeat_if b r' ≡ some r
      → (b ≡ true → IsRepeatValid (completed entry r') r')
      → IsRepeatValid (completed entry r) r
  as_repeat b r' e valid =
      let (bt, same_r) = repeat_if_lem b r' r e in
      subst (λ s. IsRepeatValid (completed entry s) s) same_r (valid bt)

  repeat_valid : IsRepeatValid (completed entry r) r
  unfolding repeat_of completed
  repeat_valid = elim (Bool-cases (same entry.repeat (bytes "daily"))) [
    | inl a ↦ as_repeat true daily (rw (a, repeat_of) at h) (λ _. tt)
    | inr a ↦ elim (Bool-cases (same entry.repeat (bytes "weekly"))) [
      | inl b ↦
          as_repeat _ weekly (rw b at (rw (a, repeat_of) at h)) (λ e. (ground arith, ground arith))
      | inr b ↦ elim (Bool-cases (same entry.repeat (bytes "monthly"))) [
        | inl c ↦ as_repeat _ monthly (rw c at (rw b at (rw (a, repeat_of) at h))) (λ e. e)
        | inr c ↦ elim (Bool-cases (same entry.repeat (bytes "yearly"))) [
          | inl d ↦
              as_repeat _ yearly (rw d at (rw c at (rw b at (rw (a, repeat_of) at h)))) (λ e. e)
          | inr d ↦ absurd (none-ne-some r (rw d at (rw c at (rw b at (rw (a, repeat_of) at h)))))
        ]
      ]
    ]
  ]

default_time_ok : is_ok (time_from_str default_scheduled_notification_time) ≡ true
unfolding time_from_str TimeOfDay.time_of_parts TimeOfDay.split_once TimeOfDay.parse_u8
    TimeOfDay.new value_from
default_time_ok = refl

time_valid :
    (time : Text)
    → (not (is_empty time) && not (is_ok (time_from_str time))) ≡ false
    → is_ok (time_from_str (non_empty_or time default_scheduled_notification_time)) ≡ true
unfolding non_empty_or
time_valid [] h = default_time_ok
time_valid (c ∷ s) h = ground arith

-- An entry that is kept has a repetition and is completed, and its time is absent or parses.
pub scheduled_notification-completed :
    (entry : FileScheduledNotification) (c : ScheduledNotificationConfig)
    → scheduled_notification entry ≡ some c
    → (r : Repeat) × (repeat_of entry ≡ some r)
      × ((not (is_empty entry.time) && not (is_ok (time_from_str entry.time))) ≡ false)
      × (completed entry r ≡ c)
unfolding scheduled_notification
scheduled_notification-completed entry c h = elim (Option-cases (repeat_of entry)) [
  | inl n ↦ absurd (none-ne-some c (rw (n, scheduled_notification) at h))
  | inr (r, e) ↦
      elim (Bool-cases (not (is_empty entry.time) && not (is_ok (time_from_str entry.time)))) [
        | inl bad ↦ absurd (none-ne-some c (rw bad at (rw (e, scheduled_notification) at h)))
        | inr good ↦ (
          r,
          e,
          good,
          some-injective (completed entry r) c (rw good at (rw (e, scheduled_notification) at h)),
        )
      ]
]

-- An entry that is kept has what its repetition needs, and a time.
pub scheduled_notification-IsEntryValid :
    (entry : FileScheduledNotification) (c : ScheduledNotificationConfig)
    → scheduled_notification entry ≡ some c
    → IsEntryValid c
unfolding completed
scheduled_notification-IsEntryValid entry c h =
    let (r, e, good, same_c) = scheduled_notification-completed entry c h in
    subst IsEntryValid same_c (repeat_valid entry r e, time_valid entry.time good)
