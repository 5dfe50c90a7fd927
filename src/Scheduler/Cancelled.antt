-- ===== src/Scheduler/Cancelled.antt =====
-- src/scheduler/mod.rs: a scheduler that is cancelled.
use awtrix_controller.Prelude.{
  ℕ, suc, ◌+◌, ◌≤◌, ◌≡◌, refl, ap, ◌∙◌, ◌⊎◌, inl, inr, ◌∷◌, Bool, true, false, List, [], all,
  length, arith,
}
use awtrix_controller.Scheduler.{
  Phase, ready, asleep, running, returned, Job, Scheduler, Task, slept, woken_by_cancel, fired,
  finished, OneOf, here, there, Step, time_passed, scheduled, cancelled, cancelled_parent, task,
  Reach, start, step, go_to_sleep, after_action, spawned, schedule, cancel, is_returned,
}

-- The actions that were started, over all jobs.
abbrev pub starts : List Job → ℕ
starts [] = 0
starts (j ∷ js) = length j.started + starts js

true≢false : (b : Bool) → b ≡ true → b ≡ false → ⊥
true≢false b h k = cc

Task-started : (s : Scheduler) (j k : Job) → s.cancelled ≡ true → Task s j k → k.started ≡ j.started
unfolding go_to_sleep after_action
Task-started s j k c (slept p e) = ap (λ (x : Job). x.started) e
Task-started s j k c (woken_by_cancel w p _ e) = ap (λ (x : Job). x.started) e
Task-started s j k c (fired w p n _ e) = absurd (true≢false s.cancelled c n)
Task-started s j k c (finished p e) = ground arith

OneOf-starts :
    (s : Scheduler) {js ks : List Job} → s.cancelled ≡ true → OneOf s js ks → starts ks ≡ starts js
OneOf-starts s c (here {j} {k} {js} t) = omega (arith, ap length (Task-started s j k c t))
OneOf-starts s c (there {j} {js} {ks} o) = omega (arith, OneOf-starts s c o)

Step-starts :
    (s t : Scheduler)
    → s.cancelled ≡ true
    → Step s t
    → (t.cancelled ≡ true) × (starts t.jobs ≡ starts s.jobs)
unfolding schedule spawned cancel
Step-starts s t c (time_passed w e h) = (c, refl)
Step-starts s t c (scheduled f r) = (c, omega arith)
Step-starts s t c cancelled = (refl, refl)
Step-starts s t c cancelled_parent = (refl, refl)
Step-starts s t c (task o) = (c, OneOf-starts s c o)

Reach-starts :
    (s : Scheduler) {t : Scheduler}
    → s.cancelled ≡ true
    → Reach s t
    → (t.cancelled ≡ true) × (starts t.jobs ≡ starts s.jobs)
Reach-starts s c start = (c, refl)
Reach-starts s c (step {t} {u} r st) =
    let (c', e) = Reach-starts s c r in let (c'', e') = Step-starts t u c' st in (c'', e' ∙ e)

-- In a scheduler that is cancelled no action is started any more, whatever the tasks and their
-- surroundings do, a job that is registered later included.
pub cancelled-starts :
    (s t : Scheduler) → s.cancelled ≡ true → Reach s t → starts t.jobs ≡ starts s.jobs
cancelled-starts s t c r = (Reach-starts s c r).1

-- A run in which no job is registered, with the number of steps that the tasks have made.
pub data Run (s : Scheduler) : ℕ → Scheduler → Type 0 where
  begun : Run s 0 s
  waited :
      {n : ℕ} {t : Scheduler} (wall elapsed : ℕ)
      → Run s n t
      → Run s n (record t { wall = wall; elapsed = elapsed })
  moved :
      {n : ℕ} {t : Scheduler} {jobs : List Job}
      → Run s n t
      → OneOf t t.jobs jobs
      → Run s (suc n) (record t { jobs = jobs })

-- The steps that a cancelled task has left.
abbrev pub steps_left : Phase → ℕ
steps_left ready = 2
steps_left (asleep _) = 1
steps_left running = 1
steps_left returned = 0

abbrev pub work : List Job → ℕ
work [] = 0
work (j ∷ js) = steps_left j.phase + work js

Task-steps_left :
    (s : Scheduler) (j k : Job)
    → s.cancelled ≡ true
    → Task s j k
    → suc (steps_left k.phase) ≤ steps_left j.phase
unfolding go_to_sleep after_action
Task-steps_left s j k c (slept p e) =
    ground (arith, ap (λ (x : Job). steps_left x.phase) e, ap steps_left p)
Task-steps_left s j k c (woken_by_cancel w p _ e) =
    ground (arith, ap (λ (x : Job). steps_left x.phase) e, ap steps_left p)
Task-steps_left s j k c (fired w p n _ e) = absurd (true≢false s.cancelled c n)
Task-steps_left s j k c (finished p e) =
    ground (arith, ap (λ (x : Job). steps_left x.phase) e, ap steps_left p)

OneOf-work :
    (s : Scheduler) {js ks : List Job}
    → s.cancelled ≡ true
    → OneOf s js ks
    → suc (work ks) ≤ work js
OneOf-work s c (here {j} {k} {js} t) = omega (arith, Task-steps_left s j k c t)
OneOf-work s c (there {j} {js} {ks} o) = omega (arith, OneOf-work s c o)

Run-work :
    (s : Scheduler) {n : ℕ} {t : Scheduler}
    → s.cancelled ≡ true
    → Run s n t
    → (t.cancelled ≡ true) × (n + work t.jobs ≤ work s.jobs)
Run-work s c begun = (c, omega arith)
Run-work s c (waited w e r) = Run-work s c r
Run-work s c (moved {n} {t} {jobs} r o) =
    let (c', h) = Run-work s c r in (c', omega (arith, h, OneOf-work t c' o))

step_of :
    (s : Scheduler) (j : Job) (p : Phase)
    → s.cancelled ≡ true
    → j.phase ≡ p
    → (is_returned p ≡ true) ⊎ ((k : Job) × Task s j k)
step_of s j ready c e = inr (_, slept e refl)
step_of s j (asleep w) c e = inr (_, woken_by_cancel w e c refl)
step_of s j running c e = inr (_, finished e refl)
step_of s j returned c e = inl refl

step_of_one :
    (s : Scheduler) (js : List Job)
    → s.cancelled ≡ true
    → (all (λ j. is_returned j.phase) js ≡ true) ⊎ ((ks : List Job) × OneOf s js ks)
step_of_one s [] c = inl refl
step_of_one s (j ∷ js) c = elim (step_of s j j.phase c refl) [
  | inr (k, t) ↦ inr (k ∷ js, here t)
  | inl e ↦ elim (step_of_one s js c) [
    | inr (ks, o) ↦ inr (j ∷ ks, there o)
    | inl es ↦ inl (ground (arith, e, es))
  ]
]

-- The tasks of a cancelled scheduler end: they make at most two steps each, one for a task that sleeps
-- or whose action runs, and while one has not returned, a task can step. So `stop` returns once the
-- actions that run have finished.
pub cancelled-ends :
    (s : Scheduler) (n : ℕ) (t : Scheduler)
    → s.cancelled ≡ true
    → Run s n t
    → (n + work t.jobs ≤ work s.jobs)
      × ((all (λ j. is_returned j.phase) t.jobs ≡ true) ⊎ ((ks : List Job) × OneOf t t.jobs ks))
cancelled-ends s n t c r = let (c', h) = Run-work s c r in (h, step_of_one t t.jobs c')
