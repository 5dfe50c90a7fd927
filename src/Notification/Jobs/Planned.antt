-- ===== src/Notification/Jobs/Planned.antt =====
-- src/notification/mod.rs and src/config/mod.rs: the jobs of the notifications that are kept.
use awtrix_controller.Prelude.{
  ℕ, zero, suc, ◌+◌, ◌*◌, ◌≡◌, ◌⊎◌, refl, sym, ap, ◌∙◌, ◌∷◌, ◌++◌, true, false, Option, none, some,
  List, [], map, arith, all, All, inl, inr, filter_map, cons_option, Bool-cases, if◌then◌else◌,
  Result, ok, err, ok-injective,
}
use awtrix_controller.Prelude.Int.{ℤ, pos, negsuc}
use awtrix_controller.Prelude.Text.{Text, bytes, same, eq_of_same}
use awtrix_controller.Instants.{Timestamp, Floats}
use awtrix_controller.Clock.{Time, Calendar}
use awtrix_controller.Config.File.{FileConfig}
use awtrix_controller.Config.Timezone.{Zones}
use awtrix_controller.Config.Entry.{is_ok, is_weekday, is_day}
use awtrix_controller.Config.Entry.Kept.{IsEntryValid, IsRepeatValid}
use awtrix_controller.Config.Entry.Given.{AreKept-IsEntryValid}
use awtrix_controller.Config.Sections.{Config, ScheduledNotificationConfig, Repeat}
use awtrix_controller.Config.TimeOfDay
use awtrix_controller.Config.TimeOfDay.{
  TimeOfDay, ParseError, MonthDay, time_from_str, date_from_str,
}
use awtrix_controller.Config.Validate.{load}
use awtrix_controller.Config.Validate.Accepted.{load-IsConfigValid}
use awtrix_controller.Notification.{
  fire_time, ok_time, next_daily_occurrence, next_weekly_occurrence,
}
use awtrix_controller.Notification.Months.{Civil, next_monthly_occurrence, next_yearly_occurrence}
use awtrix_controller.Notification.Jobs.{
  month_day, one_job, ok_date, parse_weekday, weekday_job, named_job, Schedule, schedules_of,
  schedules, next_occurrence, plan, entry_jobs, start,
}

-- The weekdays in their order.
abbrev pub days : List Text
days =
    bytes "monday"
    ∷ bytes "tuesday"
    ∷ bytes "wednesday"
    ∷ bytes "thursday"
    ∷ bytes "friday"
    ∷ bytes "saturday"
    ∷ bytes "sunday"
    ∷ []

abbrev pub get_elem? : List Text → ℕ → Option Text
get_elem? [] i = none
get_elem? (x ∷ xs) zero = some x
get_elem? (x ∷ xs) (suc i) = get_elem? xs i

-- A job: its name, its entry, when it fires first and how it goes on.
abbrev pub JobPlan : Type 0
JobPlan = Text × ScheduledNotificationConfig × Timestamp × (Timestamp → Timestamp)

-- The job of an entry that fires first after an instant, and again after each time that it fired.
abbrev pub recurring :
    ScheduledNotificationConfig → Text → Timestamp → (Timestamp → Timestamp) → JobPlan
recurring entry name now next = (name, entry, next now, next)

abbrev pub job_name : ScheduledNotificationConfig → Text
job_name entry = bytes "scheduled:" ++ entry.name

module _ (cal : Calendar) (civil : Civil) (monday : ℕ) (now : Timestamp) where
  -- One job for each weekday of the list, in its order, on the day that has this name.
  abbrev pub AreWeekly : ScheduledNotificationConfig → Time → List Text → List JobPlan → Type 0
  AreWeekly entry time [] jobs = jobs ≡ []
  AreWeekly entry time (name ∷ names) jobs =
      (weekday : ℕ) × (rest : List JobPlan) × (get_elem? days weekday ≡ some name)
      × (jobs
          ≡ recurring entry (job_name entry ++ (b':' ∷ name)) now
              (λ from. next_weekly_occurrence cal monday from weekday time)
            ∷ rest)
      × AreWeekly entry time names rest

  -- The jobs that a repetition asks for.
  abbrev pub AreJobs : ScheduledNotificationConfig → Repeat → Time → List JobPlan → Type 0
  AreJobs entry Repeat.daily time jobs =
      jobs ≡ recurring entry (job_name entry) now (λ from. next_daily_occurrence cal from time) ∷ []
  AreJobs entry Repeat.weekly time jobs = AreWeekly entry time entry.weekdays jobs
  AreJobs entry Repeat.monthly time jobs =
      (day : ℕ) × (entry.day ≡ pos day)
      × (jobs
          ≡ recurring entry (job_name entry) now
              (λ from. next_monthly_occurrence civil cal from day time)
            ∷ [])
  AreJobs entry Repeat.yearly time jobs =
      (date : MonthDay) × (date_from_str entry.date ≡ ok date)
      × (jobs
          ≡ recurring entry (job_name entry) now
              (λ from. next_yearly_occurrence civil cal from date time)
            ∷ [])

  -- Those of an entry, at the time that it has; none when it is disabled.
  abbrev pub EntryJobs : ScheduledNotificationConfig → List JobPlan → Type 0
  EntryJobs entry jobs =
      ((entry.enabled ≡ false) × (jobs ≡ []))
      ⊎ ((entry.enabled ≡ true)
          × ((t : TimeOfDay) × (time_from_str entry.time ≡ ok t)
              × AreJobs entry entry.repeat (t.hour * 60 + t.minute) jobs))

  -- Those of the entries, in their order.
  abbrev pub ArePlanned : List ScheduledNotificationConfig → List JobPlan → Type 0
  ArePlanned [] jobs = jobs ≡ []
  ArePlanned (entry ∷ entries) jobs =
      (own : List JobPlan) × (others : List JobPlan) × (jobs ≡ own ++ others)
      × EntryJobs entry own
      × ArePlanned entries others

err≢ok : {E A : Type 0} (e : E) (a : A) → ◌≡◌ {A = Result E A} (err e) (ok a) → ⊥
err≢ok e a h = cc

ok_of_is_ok : {E A : Type 0} (r : Result E A) → is_ok r ≡ true → (a : A) × (r ≡ ok a)
ok_of_is_ok (ok a) h = (a, refl)
ok_of_is_ok (err e) h = absurd (cc)

fire_time_given :
    (s : Text) (t : TimeOfDay)
    → time_from_str s ≡ ok t
    → fire_time s ≡ some (t.hour * 60 + t.minute)
unfolding fire_time time_from_str TimeOfDay.time_of_parts TimeOfDay.split_once TimeOfDay.parse_u8
    TimeOfDay.new
fire_time_given [] t h = cc
fire_time_given (c ∷ s) t h = ap ok_time h

month_day_given : (day : ℤ) → is_day day ≡ true → (n : ℕ) × (day ≡ pos n) × (month_day day ≡ some n)
month_day_given (pos n) h = (n, refl, ground arith)
month_day_given (negsuc n) h = absurd (ground arith)

-- A result that is the number of a weekday.
abbrev Numbers : Text → Result Text ℕ → Type 0
Numbers name r = (weekday : ℕ) × (r ≡ ok weekday) × (get_elem? days weekday ≡ some name)

-- One arm of the `match`, and the rest of them.
arm :
    (name expected : Text) (weekday : ℕ) (rest : Result Text ℕ)
    → get_elem? days weekday ≡ some expected
    → (same name expected ≡ false → Numbers name rest)
    → Numbers name (if same name expected then ok weekday else rest)
arm name expected weekday rest e others = elim (Bool-cases (same name expected)) [
  | inl y ↦ rw y (weekday, refl, e ∙ ap some (sym (eq_of_same name expected y)))
  | inr n ↦ rw n (others n)
]

module _ (to_lowercase : Text → Text)
    (keeps_names : (name : Text) → is_weekday name ≡ true → to_lowercase name ≡ name) where
  parse_weekday-Numbers :
      (name : Text) → is_weekday name ≡ true → Numbers name (parse_weekday to_lowercase name)
  unfolding parse_weekday
  parse_weekday-Numbers name h = rw (keeps_names name h) (
      arm name _ 0 _ refl λ a. arm name _ 1 _ refl λ b. arm name _ 2 _ refl λ c.
        arm name _ 3 _ refl λ d.
          arm name _ 4 _ refl
            λ e. arm name _ 5 _ refl λ f. arm name _ 6 _ refl λ g. absurd (ground arith))

  module _ (cal : Calendar) (civil : Civil) (monday : ℕ) (now : Timestamp) where
    abbrev planned : ScheduledNotificationConfig → Time → Text × Schedule → JobPlan
    planned entry time job = plan to_lowercase cal civil monday entry now time job

    weekly_job-planned :
        (entry : ScheduledNotificationConfig) (time : Time) (name : Text) (r : Result Text ℕ)
        (names : List Text) (jobs : List (Text × Schedule))
        → Numbers name r
        → AreWeekly cal civil monday now entry time names (map (planned entry time) jobs)
        → AreWeekly cal civil monday now entry time
            (name ∷ names)
            (map (planned entry time) (cons_option (named_job (job_name entry) name r) jobs))
    unfolding next_occurrence
    weekly_job-planned entry time name (ok w) names jobs (v, e, named) rest =
        let same_w : w ≡ v = ok-injective w v e in (w, _, rw same_w named, refl, rest)
    weekly_job-planned entry time name (err x) names jobs (v, e, named) rest = absurd (err≢ok x v e)

    weekly-planned :
        (entry : ScheduledNotificationConfig) (time : Time) (names : List Text)
        → all is_weekday names ≡ true
        → AreWeekly cal civil monday now entry time names (
            map (planned entry time) (filter_map (weekday_job to_lowercase (job_name entry)) names))
    weekly-planned entry time [] h = refl
    weekly-planned entry time (name ∷ names) h =
        weekly_job-planned entry time name (parse_weekday to_lowercase name) names _
          (parse_weekday-Numbers name (ground arith))
          (weekly-planned entry time names (ground arith))

    schedules_of-planned :
        (entry : ScheduledNotificationConfig) (r : Repeat) (time : Time)
        → IsRepeatValid entry r
        → AreJobs cal civil monday now entry r time
            (map (planned entry time) (schedules_of to_lowercase entry r (job_name entry)))
    unfolding schedules_of next_occurrence
    schedules_of-planned entry Repeat.daily time v = refl
    schedules_of-planned entry Repeat.weekly time v = weekly-planned entry time entry.weekdays v.1
    schedules_of-planned entry Repeat.monthly time v =
        let (n, day, given) = month_day_given entry.day v in (n, day, rw (given, one_job) refl)
    schedules_of-planned entry Repeat.yearly time v =
        let (d, date) = ok_of_is_ok (date_from_str entry.date) v in
        (d, date, rw (date, one_job, ok_date) refl)

    entry_jobs-enabled :
        (entry : ScheduledNotificationConfig) (time : Time)
        → entry.enabled ≡ true
        → fire_time entry.time ≡ some time
        → entry_jobs to_lowercase cal civil monday now entry
          ≡ map (planned entry time) (schedules_of to_lowercase entry entry.repeat (job_name entry))
    unfolding entry_jobs schedules
    entry_jobs-enabled entry time on given = simp (on, given)

    entry_jobs-EntryJobs :
        (entry : ScheduledNotificationConfig)
        → IsEntryValid entry
        → EntryJobs cal civil monday now entry (entry_jobs to_lowercase cal civil monday now entry)
    unfolding entry_jobs
    entry_jobs-EntryJobs entry (v, t) = elim (Bool-cases entry.enabled) [
      | inr off ↦ inl (off, rw off refl)
      | inl on ↦
          let (tod, e) = ok_of_is_ok (time_from_str entry.time) t in
          let time = fire_time_given entry.time tod e in
          inr (
            on,
            (
              tod,
              e,
              rw (entry_jobs-enabled entry _ on time) (schedules_of-planned entry entry.repeat _ v),
            ),
          )
    ]

    start-ArePlanned :
        (entries : List ScheduledNotificationConfig)
        → All IsEntryValid entries
        → ArePlanned cal civil monday now entries (start to_lowercase cal civil monday now entries)
    unfolding start
    start-ArePlanned [] v = refl
    start-ArePlanned (entry ∷ entries) (v, vs) =
        (_, _, refl, entry_jobs-EntryJobs entry v, start-ArePlanned entries vs)

-- Of a configuration that loads, the jobs are exactly those that its notifications ask for, in their
-- order, each at the entry's time: a disabled one has none; a daily, monthly or yearly one has one job,
-- that goes from each instant to the next daily occurrence, to the next monthly one of its day or to the
-- next yearly one of its date; a weekly one has a job for each of its weekdays in turn, that goes to the
-- next weekly occurrence of the day of that name. The first time of each is the one after now. The
-- names of weekdays are in lower case, so lower-casing is to leave those seven as they are.
pub load-ArePlanned :
    (fl : Floats) (zones : Zones) (IoError YamlError : Type 0)
    (from_str : Text → Result YamlError (FileConfig fl.F))
    (read_to_string : Text → Result IoError Text) (path : Text) (c : Config fl.F)
    (to_lowercase : Text → Text) (cal : Calendar) (civil : Civil) (monday : ℕ) (now : Timestamp)
    → load fl zones IoError YamlError from_str read_to_string path ≡ ok c
    → ((name : Text) → is_weekday name ≡ true → to_lowercase name ≡ name)
    → ArePlanned cal civil monday now c.scheduled_notifications
        (start to_lowercase cal civil monday now c.scheduled_notifications)
load-ArePlanned fl zones IoError YamlError from_str read_to_string path c to_lowercase cal civil
      monday now h keeps =
    let (_, file, _, _, valid) =
      load-IsConfigValid fl zones IoError YamlError from_str read_to_string path c h in
    start-ArePlanned to_lowercase keeps cal civil monday now c.scheduled_notifications
      (AreKept-IsEntryValid file.scheduled_notifications _ valid.notifications)
