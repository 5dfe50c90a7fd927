-- ===== src/Config/Entry/Given.antt =====
-- src/config/mod.rs: the scheduled notifications of the file that are kept, and those that are skipped.
use awtrix_controller.Prelude.{
  ◌≡◌, ◌≢◌, refl, sym, ap, ◌∙◌, ◌⊎◌, inl, inr, ◌∷◌, ◌&&◌, not, Bool, true, false, Option, none,
  some, List, [], arith, unwrap_or, if◌then◌else◌, All, filter_map, Bool-cases, Option-cases,
}
use mathlib.Core.Option.{none-ne-some}
use mathlib.Core.Path.{subst}
use awtrix_controller.Prelude.Int.{ℤ, pos}
use awtrix_controller.Prelude.Text.{Text, bytes, same, eq_of_same}
use awtrix_controller.Config.Defaults.{
  default_scheduled_notification_duration, default_scheduled_notification_icon,
  default_scheduled_notification_scroll_speed, default_scheduled_notification_time,
}
use awtrix_controller.Config.File.{FileScheduledNotification}
use awtrix_controller.Config.Sections.{
  Repeat, daily, weekly, monthly, yearly, ScheduledNotificationConfig,
}
use awtrix_controller.Config.TimeOfDay.{time_from_str}
use awtrix_controller.Config.WeatherSection.Ranges.{
  IsSwitch, IsSwitch-cases, IsNonZeroSetting, non_zero_or_cases,
}
use awtrix_controller.Config.Entry.{
  is_empty, is_ok, non_empty_or, repeat_if, repeat_of, completed, scheduled_notification,
}
use awtrix_controller.Config.Entry.Kept.{
  IsRepeatValid, IsEntryValid, repeat_if_lem, scheduled_notification-completed,
  scheduled_notification-IsEntryValid,
}

-- A text that is given, or its default when it is empty.
abbrev pub IsText : Text → Text → Text → Type 0
IsText given default v = ((given ≡ v) × (v ≢ [])) ⊎ ((given ≡ []) × (v ≡ default))

pub non_empty_or_cases : (value default : Text) → IsText value default (non_empty_or value default)
unfolding non_empty_or
non_empty_or_cases [] default = inr (refl, refl)
non_empty_or_cases (c ∷ s) default = inl (refl, λ e. cc)

-- The names of the repetitions.
abbrev pub name_of : Repeat → Text
name_of daily = bytes "daily"
name_of weekly = bytes "weekly"
name_of monthly = bytes "monthly"
name_of yearly = bytes "yearly"

-- The day that is given, or 0.
abbrev pub IsDay : Option ℤ → ℤ → Type 0
IsDay given v = (given ≡ some v) ⊎ ((given ≡ none) × (v ≡ pos 0))

-- The configuration has what the entry of the file gives, or the defaults, and is valid.
pub record IsKept (entry : FileScheduledNotification) (c : ScheduledNotificationConfig)
    : Type 0 where
  pub name : c.name ≡ entry.name
  pub message : c.message ≡ entry.message
  pub repeat : entry.repeat ≡ name_of c.repeat
  pub date : c.date ≡ entry.date
  pub day : IsDay entry.day c.day
  pub weekdays : c.weekdays ≡ entry.weekdays
  pub time : IsText entry.time default_scheduled_notification_time c.time
  pub enabled : IsSwitch entry.enabled true c.enabled
  pub duration : IsNonZeroSetting entry.duration default_scheduled_notification_duration c.duration
  pub icon : IsText entry.icon default_scheduled_notification_icon c.icon
  pub rainbow : IsSwitch entry.rainbow false c.rainbow
  pub scroll_speed :
      IsNonZeroSetting entry.scroll_speed default_scheduled_notification_scroll_speed c.scroll_speed
  pub wakeup : IsSwitch entry.wakeup true c.wakeup
  pub rtttl : c.rtttl ≡ entry.rtttl
  pub valid : IsEntryValid c

-- Each entry is kept, in its order, or skipped, which is only when no configuration is valid that has
-- what it gives.
abbrev pub AreKept : List FileScheduledNotification → List ScheduledNotificationConfig → Type 0
AreKept [] cs = cs ≡ []
AreKept (entry ∷ entries) cs =
    ((c : ScheduledNotificationConfig) × (rest : List ScheduledNotificationConfig) × (cs ≡ c ∷ rest)
      × IsKept entry c
      × AreKept entries rest)
    ⊎ (¬ ((c : ScheduledNotificationConfig) × IsKept entry c) × AreKept entries cs)

IsDay-unwrap_or : (given : Option ℤ) → IsDay given (unwrap_or given (pos 0))
IsDay-unwrap_or none = inr (refl, refl)
IsDay-unwrap_or (some d) = inl refl

unwrap_or-IsDay : (given : Option ℤ) (d : ℤ) → IsDay given d → unwrap_or given (pos 0) ≡ d
unwrap_or-IsDay given d (inl e) = rw e refl
unwrap_or-IsDay given d (inr (e, z)) = rw (e, z) refl

named :
    (name expected : Text) (r r' : Repeat) (b : Bool) (rest : Option Repeat)
    → expected ≡ name_of r
    → (if same name expected then repeat_if b r else rest) ≡ some r'
    → (rest ≡ some r' → name ≡ name_of r')
    → name ≡ name_of r'
named name expected r r' b rest e h others = elim (Bool-cases (same name expected)) [
  | inl y ↦ eq_of_same name expected y ∙ e ∙ ap name_of (repeat_if_lem b r r' (rw y at h)).1
  | inr n ↦ others (rw n at h)
]

repeat_of-name_of :
    (entry : FileScheduledNotification) (r : Repeat)
    → repeat_of entry ≡ some r
    → entry.repeat ≡ name_of r
unfolding repeat_of
repeat_of-name_of entry r h = named entry.repeat _ daily r true _ refl h λ h1.
    named entry.repeat _ weekly r _ _ refl h1 λ h2.
      named entry.repeat _ monthly r _ _ refl h2
        λ h3. named entry.repeat _ yearly r _ none refl h3 λ e. absurd (none-ne-some r e)

scheduled_notification-IsKept :
    (entry : FileScheduledNotification) (c : ScheduledNotificationConfig)
    → scheduled_notification entry ≡ some c
    → IsKept entry c
unfolding completed
scheduled_notification-IsKept entry c h =
    let (r, e, _, same_c) = scheduled_notification-completed entry c h in
    subst (IsKept entry) same_c (record {
      name = refl;
      message = refl;
      repeat = repeat_of-name_of entry r e;
      date = refl;
      day = IsDay-unwrap_or entry.day;
      weekdays = refl;
      time = non_empty_or_cases entry.time _;
      enabled = IsSwitch-cases entry.enabled true;
      duration = non_zero_or_cases entry.duration _;
      icon = non_empty_or_cases entry.icon _;
      rainbow = IsSwitch-cases entry.rainbow false;
      scroll_speed = non_zero_or_cases entry.scroll_speed _;
      wakeup = IsSwitch-cases entry.wakeup true;
      rtttl = refl;
      valid = subst IsEntryValid (sym same_c) (scheduled_notification-IsEntryValid entry c h);
    })

repeat_of-found :
    (entry : FileScheduledNotification) (c : ScheduledNotificationConfig) (r : Repeat)
    → entry.repeat ≡ name_of r
    → c.weekdays ≡ entry.weekdays
    → unwrap_or entry.day (pos 0) ≡ c.day
    → c.date ≡ entry.date
    → IsRepeatValid c r
    → repeat_of entry ≡ some r
unfolding repeat_of same
repeat_of-found entry c daily e w d t v = simp e
repeat_of-found entry c weekly e w d t v = simp (e, sym w, v.0, v.1)
repeat_of-found entry c monthly e w d t v = simp (e, d, v)
repeat_of-found entry c yearly e w d t v = simp (e, sym t, v)

time_found :
    (given default v : Text)
    → IsText given default v
    → is_ok (time_from_str v) ≡ true
    → (not (is_empty given) && not (is_ok (time_from_str given))) ≡ false
time_found given default v (inl (e, _)) h = rw e (ground (arith, h))
time_found given default v (inr (e, _)) h = rw e refl

-- An entry with a configuration of its own is not skipped.
IsKept-scheduled_notification :
    (entry : FileScheduledNotification) (c : ScheduledNotificationConfig)
    → IsKept entry c
    → scheduled_notification entry ≢ none
unfolding scheduled_notification
IsKept-scheduled_notification entry c k skipped =
    let r = c.repeat in
    let found =
      repeat_of-found entry c r k.repeat k.weekdays (unwrap_or-IsDay entry.day c.day k.day) k.date
        k.valid.0 in
    let timed = time_found entry.time _ c.time k.time k.valid.1 in
    none-ne-some (completed entry r)
      (sym (rw timed at (rw (found, scheduled_notification) at skipped)))

pub filter_map-AreKept :
    (entries : List FileScheduledNotification)
    → AreKept entries (filter_map scheduled_notification entries)
filter_map-AreKept [] = refl
filter_map-AreKept (e ∷ es) = elim (Option-cases (scheduled_notification e)) [
  | inl n ↦ rw n (inr (λ (c, k). IsKept-scheduled_notification e c k n, filter_map-AreKept es))
  | inr (c, h) ↦ rw h (inl (c, _, refl, scheduled_notification-IsKept e c h, filter_map-AreKept es))
]

pub AreKept-IsEntryValid :
    (entries : List FileScheduledNotification) (cs : List ScheduledNotificationConfig)
    → AreKept entries cs
    → All IsEntryValid cs
AreKept-IsEntryValid [] cs h = rw h tt
AreKept-IsEntryValid (e ∷ es) cs (inl (c, rest, same_cs, k, others)) =
    rw same_cs (k.valid, AreKept-IsEntryValid es rest others)
AreKept-IsEntryValid (e ∷ es) cs (inr (_, others)) = AreKept-IsEntryValid es cs others
