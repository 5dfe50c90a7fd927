-- ===== src/Scheduler.antt =====
-- src/scheduler/mod.rs: recurring jobs, as a step relation over the tasks, the two clocks and the
-- cancellation token. A step is one that a task makes, or one of its surroundings.
--
-- `wall` is the injected clock, which may go anywhere between two readings; `elapsed` is tokio's
-- clock, in nanoseconds, which only goes forward and by which the sleeps are measured.
pub mod Cancelled
pub mod Dues
pub mod OnTime
use awtrix_controller.Prelude.{
  ℕ, ◌+◌, ◌-◌, ◌≤◌, ◌≡◌, ◌∷◌, ◌++◌, ◌&&◌, Bool, true, false, List, [], all, if◌then◌else◌,
}
use awtrix_controller.Instants.{Timestamp}

-- Where the loop of a task stands: at its top; in its sleep, with the end of the sleep; in its action; or
-- returned.
pub data Phase : Type 0 where
  ready : Phase
  asleep : ℕ → Phase
  running : Phase
  returned : Phase

-- A job's task: `started` are the due instants that its action was started with, in their order.
pub record Job : Type 0 where
  pub fire_at : Timestamp
  pub reschedule : Timestamp → Timestamp
  pub phase : Phase
  pub started : List Timestamp

pub record Scheduler : Type 0 where
  pub wall : Timestamp
  pub elapsed : ℕ
  pub cancelled : Bool
  pub closed : Bool
  pub jobs : List Job

-- `Scheduler::new`; a parent token that is cancelled has a cancelled child.
unfoldable pub new : Timestamp → ℕ → Bool → Scheduler
new wall elapsed parent_cancelled = record {
  wall = wall;
  elapsed = elapsed;
  cancelled = parent_cancelled;
  closed = false;
  jobs = [];
}

-- The top of the loop: the delay is the time until `fire_at`, or none when that has passed.
unfoldable pub go_to_sleep : Timestamp → ℕ → Job → Job
go_to_sleep wall elapsed j = record j { phase = asleep (elapsed + (j.fire_at - wall)) }

-- `schedule_with_due`: the task of a job that is registered.
unfoldable pub spawned : Timestamp → (Timestamp → Timestamp) → Job
spawned fire_at reschedule = record {
  fire_at = fire_at;
  reschedule = reschedule;
  phase = ready;
  started = [];
}

-- What the task does after its action: it returns when the token is cancelled, and asks for the next
-- due instant otherwise.
unfoldable pub after_action : Bool → Job → Job
after_action cancelled j =
    if cancelled
    then record j { phase = returned }
    else record j { phase = ready; fire_at = j.reschedule j.fire_at }

-- The steps of one task. The `select!` is biased: a cancelled token is seen before the end of a sleep.
pub data Task (s : Scheduler) (j k : Job) : Type 0 where
  slept : j.phase ≡ ready → k ≡ go_to_sleep s.wall s.elapsed j → Task s j k
  woken_by_cancel :
      (wake : ℕ)
      → j.phase ≡ asleep wake
      → s.cancelled ≡ true
      → k ≡ record j { phase = returned }
      → Task s j k
  fired :
      (wake : ℕ)
      → j.phase ≡ asleep wake
      → s.cancelled ≡ false
      → wake ≤ s.elapsed
      → k ≡ record j { phase = running; started = j.started ++ j.fire_at ∷ [] }
      → Task s j k
  finished : j.phase ≡ running → k ≡ after_action s.cancelled j → Task s j k

-- One task of several makes its step.
pub data OneOf (s : Scheduler) : List Job → List Job → Type 0 where
  here : {j k : Job} {js : List Job} → Task s j k → OneOf s (j ∷ js) (k ∷ js)
  there : {j : Job} {js ks : List Job} → OneOf s js ks → OneOf s (j ∷ js) (j ∷ ks)

unfoldable pub schedule : Timestamp → (Timestamp → Timestamp) → Scheduler → Scheduler
schedule fire_at reschedule s = record s { jobs = spawned fire_at reschedule ∷ s.jobs }

unfoldable pub cancel : Scheduler → Scheduler
cancel s = record s { cancelled = true; closed = true }

-- `cancel_parent` is the cancellation of the parent's token, or of the one that `failures` has.
pub data Step (s : Scheduler) : Scheduler → Type 0 where
  time_passed :
      (wall : Timestamp) (elapsed : ℕ)
      → s.elapsed ≤ elapsed
      → Step s (record s { wall = wall; elapsed = elapsed })
  scheduled :
      (fire_at : Timestamp) (reschedule : Timestamp → Timestamp)
      → Step s (schedule fire_at reschedule s)
  cancelled : Step s (cancel s)
  cancelled_parent : Step s (record s { cancelled = true })
  task : {jobs : List Job} → OneOf s s.jobs jobs → Step s (record s { jobs = jobs })

pub data Reach (s : Scheduler) : Scheduler → Type 0 where
  start : Reach s s
  step : {t u : Scheduler} → Reach s t → Step t u → Reach s u

abbrev pub is_returned : Phase → Bool
is_returned returned = true
is_returned ready = false
is_returned running = false
is_returned (asleep _) = false

-- `stop` cancels and then waits for the tracker: it returns when no task is left.
unfoldable pub is_stopped : Scheduler → Bool
is_stopped s = s.closed && all (λ j. is_returned j.phase) s.jobs
