-- ===== src/Scheduler/Dues.antt =====
-- src/scheduler/mod.rs: the due instants that a job's action is started with.
use awtrix_controller.Prelude.{
  ℕ, ◌≡◌, refl, sym, ap, ◌⊎◌, inl, inr, ◌∷◌, ◌++◌, Bool, List, [], Bool-cases,
}
use mathlib.Core.Path.{subst}
use awtrix_controller.Instants.{Timestamp}
use awtrix_controller.Scheduler.{
  Phase, ready, asleep, running, returned, Job, Scheduler, Task, slept, woken_by_cancel, fired,
  finished, OneOf, here, there, Step, time_passed, scheduled, cancelled, cancelled_parent, task,
  Reach, start, step, new, go_to_sleep, after_action, spawned, schedule, cancel,
}

-- The list counts up from `first` by `next`, and goes on with `due`.
abbrev pub Follows : (Timestamp → Timestamp) → Timestamp → List Timestamp → Timestamp → Type 0
Follows next first [] due = first ≡ due
Follows next first (x ∷ xs) due = (x ≡ first) × Follows next (next first) xs due

Follows-append :
    (next : Timestamp → Timestamp) (first : Timestamp) (xs : List Timestamp) (due : Timestamp)
    → Follows next first xs due
    → Follows next first (xs ++ due ∷ []) (next due)
Follows-append next first [] due h = (sym h, ap next h)
Follows-append next first (x ∷ xs) due (e, h) = (e, Follows-append next (next first) xs due h)

-- While the action runs, and after a task that returned from it, the due instant is still its own.
abbrev pub InTurn : Job → Timestamp → Phase → Type 0
InTurn j first ready = Follows j.reschedule first j.started j.fire_at
InTurn j first (asleep _) = Follows j.reschedule first j.started j.fire_at
InTurn j first running = Follows j.reschedule first j.started (j.reschedule j.fire_at)
InTurn j first returned =
    Follows j.reschedule first j.started j.fire_at
    ⊎ Follows j.reschedule first j.started (j.reschedule j.fire_at)

-- What a scheduler is asked to do: the instant and the rule that `schedule` is called with.
abbrev pub Registration : Type 0
Registration = Timestamp × (Timestamp → Timestamp)

abbrev pub IsInTurn : Registration → Job → Type 0
IsInTurn (first, reschedule) j = (j.reschedule ≡ reschedule) × InTurn j first j.phase

-- One job for each registration, in the same order.
abbrev pub AreInTurn : List Registration → List Job → Type 0
AreInTurn [] [] = Unit
AreInTurn [] (j ∷ js) = ⊥
AreInTurn (r ∷ rs) [] = ⊥
AreInTurn (r ∷ rs) (j ∷ js) = IsInTurn r j × AreInTurn rs js

-- The registrations of a run, the latest first.
unfoldable pub registration : {s t : Scheduler} → Step s t → List Registration
registration (time_passed w e h) = []
registration (scheduled f r) = (f, r) ∷ []
registration cancelled = []
registration cancelled_parent = []
registration (task o) = []

unfoldable pub registered : {s t : Scheduler} → Reach s t → List Registration
registered start = []
registered (step r st) = registration st ++ registered r

Task-IsInTurn :
    (s : Scheduler) (j k : Job) (r : Registration) → Task s j k → IsInTurn r j → IsInTurn r k
unfolding go_to_sleep after_action
Task-IsInTurn s j k (f, g) (slept p e) (same, h) =
    subst (IsInTurn (f, g)) (sym e) (same, subst (InTurn j f) p h)
Task-IsInTurn s j k (f, g) (woken_by_cancel w p _ e) (same, h) =
    subst (IsInTurn (f, g)) (sym e) (same, inl (subst (InTurn j f) p h))
Task-IsInTurn s j k (f, g) (fired w p _ _ e) (same, h) =
    subst (IsInTurn (f, g)) (sym e)
      (same, Follows-append j.reschedule f j.started j.fire_at (subst (InTurn j f) p h))
Task-IsInTurn s j k (f, g) (finished p e) (same, h) =
    let h' = subst (InTurn j f) p h in
    elim (Bool-cases s.cancelled) [
      | inl c ↦ subst (IsInTurn (f, g)) (sym (rw (c, after_action) at e)) (same, inr h')
      | inr c ↦ subst (IsInTurn (f, g)) (sym (rw (c, after_action) at e)) (same, h')
    ]

OneOf-AreInTurn :
    (s : Scheduler) {js ks : List Job} (rs : List Registration)
    → OneOf s js ks
    → AreInTurn rs js
    → AreInTurn rs ks
OneOf-AreInTurn s [] (here t) h = absurd h
OneOf-AreInTurn s [] (there o) h = absurd h
OneOf-AreInTurn s (r ∷ rs) (here {j} {k} t) (h, hs) = (Task-IsInTurn s j k r t h, hs)
OneOf-AreInTurn s (r ∷ rs) (there o) (h, hs) = (h, OneOf-AreInTurn s rs o hs)

Step-AreInTurn :
    (s t : Scheduler) (rs : List Registration) (st : Step s t)
    → AreInTurn rs s.jobs
    → AreInTurn (registration st ++ rs) t.jobs
unfolding schedule spawned cancel registration
Step-AreInTurn s t rs (time_passed w e h) hs = hs
Step-AreInTurn s t rs (scheduled f r) hs = ((refl, refl), hs)
Step-AreInTurn s t rs cancelled hs = hs
Step-AreInTurn s t rs cancelled_parent hs = hs
Step-AreInTurn s t rs (task o) hs = OneOf-AreInTurn s rs o hs

Reach-AreInTurn :
    (s : Scheduler) {t : Scheduler} (r : Reach s t)
    → AreInTurn [] s.jobs
    → AreInTurn (registered r) t.jobs
unfolding registered
Reach-AreInTurn s start hs = hs
Reach-AreInTurn s (step {t} {u} r st) hs =
    Step-AreInTurn t u (registered r) st (Reach-AreInTurn s r hs)

-- In every run of a new scheduler there is one job for each registration. The due instants that its
-- action was started with are the one that it was registered with, then the one that the rule it was
-- registered with makes of that, and so on, none left out and none twice, whenever the actions ran;
-- and the one it waits for is the next.
pub started-IsInTurn :
    (wall : Timestamp) (elapsed : ℕ) (parent_cancelled : Bool) (t : Scheduler)
    → (r : Reach (new wall elapsed parent_cancelled) t) → AreInTurn (registered r) t.jobs
unfolding new
started-IsInTurn wall elapsed parent_cancelled t r =
    Reach-AreInTurn (new wall elapsed parent_cancelled) r tt
