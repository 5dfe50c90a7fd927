-- ===== src/Tests/Schedules.antt =====
-- Runs of the scheduler and of the jobs of scheduled notifications.
use awtrix_controller.Prelude.{
  some, inr, ◌+◌, ◌<◌, ◌≤◌, ◌≡◌, refl, ◌∷◌, ◌⊎◌, true, false, List, [], all, Memᴰ, arith,
}
use awtrix_controller.Instants.{Timestamp}
use awtrix_controller.Clock.{Date, resolve_local}
use awtrix_controller.Notification.{first_after}
use awtrix_controller.Notification.Months.{next_monthly_occurrence, clamped}
use awtrix_controller.Notification.Months.First.{IsMonthDate, next_monthly_occurrence_first}
use awtrix_controller.Tests.Calendars.{at, utc, utc-IsOrdinary, even_months, even_months-IsCivil}
use awtrix_controller.Scheduler.{
  asleep, running, returned, Job, Scheduler, Task, slept, fired, finished, OneOf, here, time_passed,
  scheduled, task, Reach, start, step, new, go_to_sleep, after_action, spawned, schedule,
  is_returned,
}
use awtrix_controller.Scheduler.Cancelled.{
  starts, work, begun, moved, cancelled-starts, cancelled-ends,
}
use awtrix_controller.Scheduler.Dues.{AreInTurn, registered, started-IsInTurn}
use awtrix_controller.Scheduler.OnTime.{Synced, Task-due}
use awtrix_controller.Scheduler.OnTime

-- Day 31 of a month of thirty days, from the noon of the eleventh.
next_monthly_occurrence_first_example :
    let r = next_monthly_occurrence even_months utc (at 10 720) 31 60 in
    (at 10 720 < r)
    × ((y : Date) × IsMonthDate even_months 31 y × (resolve_local utc y 60 ≡ some r))
    × (r ≤ at 59 60)
next_monthly_occurrence_first_example =
    next_monthly_occurrence_first utc even_months (at 10 720) (at 29 60) (at 59 60) (at 59 60) 31 60
      29 59 59 utc-IsOrdinary even_months-IsCivil (omega arith) (inr (omega arith, refl)) refl
      (inr (omega arith, refl)) refl refl refl (inr (omega arith, refl)) refl (omega arith)

month_end : next_monthly_occurrence even_months utc (at 10 720) 31 60 ≡ at 29 60
unfolding next_monthly_occurrence clamped first_after
month_end = refl

-- Every ten.
abbrev ten_later : Timestamp → Timestamp
ten_later t = t + 10

-- The job is due at 100, and the wall clock shows 90 more than tokio's.
abbrev firing : Scheduler
firing = record {
  wall = 102;
  elapsed = 12;
  cancelled = false;
  closed = false;
  jobs = record { fire_at = 100; reschedule = ten_later; phase = running; started = 100 ∷ [] } ∷ [];
}

abbrev waiting : Scheduler
waiting = record {
  wall = 102;
  elapsed = 12;
  cancelled = false;
  closed = false;
  jobs = record { fire_at = 100; reschedule = ten_later; phase = asleep 10; started = [] } ∷ [];
}

waiting_reached : Synced 90 (new 90 0 false) waiting
unfolding new schedule spawned go_to_sleep
waiting_reached =
    OnTime.later
      (OnTime.later (OnTime.later (OnTime.begun refl) (scheduled 100 ten_later) refl)
        (task (here (slept refl refl))) refl)
      (time_passed 102 12 (omega arith)) refl

fires :
    Task waiting
      (record { fire_at = 100; reschedule = ten_later; phase = asleep 10; started = [] })
      (record { fire_at = 100; reschedule = ten_later; phase = running; started = 100 ∷ [] })
fires = fired 10 refl refl (omega arith) refl

firing_reached : Reach (new 90 0 false) firing
unfolding new schedule spawned go_to_sleep
firing_reached =
    step
      (step (step (step start (scheduled 100 ten_later)) (task (here (slept refl refl))))
        (time_passed 102 12 (omega arith)))
      (task (here fires))

started-IsInTurn_example : AreInTurn (registered firing_reached) firing.jobs
started-IsInTurn_example = started-IsInTurn 90 0 false firing firing_reached

Task-due_example : 100 ≤ waiting.wall
Task-due_example = Task-due 90 90 0 false waiting _ _ waiting_reached (Memᴰ.head refl) fires refl

-- The token is cancelled while the action runs.
abbrev stopping : Scheduler
stopping = record firing { cancelled = true; closed = true }

abbrev stopped : Scheduler
stopped = record {
  wall = 102;
  elapsed = 12;
  cancelled = true;
  closed = true;
  jobs =
      record { fire_at = 100; reschedule = ten_later; phase = returned; started = 100 ∷ [] } ∷ [];
}

ends : OneOf stopping stopping.jobs stopped.jobs
unfolding after_action
ends = here (finished refl refl)

cancelled-starts_example : starts stopped.jobs ≡ starts stopping.jobs
cancelled-starts_example = cancelled-starts stopping stopped refl (step start (task ends))

cancelled-ends_example :
    (1 + work stopped.jobs ≤ work stopping.jobs)
    × ((all (λ (j : Job). is_returned j.phase) stopped.jobs ≡ true)
        ⊎ ((ks : List Job) × OneOf stopped stopped.jobs ks))
cancelled-ends_example = cancelled-ends stopping 1 stopped refl (moved begun ends)

-- A scheduler whose parent is cancelled fires nothing.
never_fires : (new 90 0 true).cancelled ≡ true
unfolding new
never_fires = refl
