-- ===== src/Scheduler/OnTime.antt =====
-- src/scheduler/mod.rs: when an action is started.
use awtrix_controller.Prelude.{
  ℕ, ◌+◌, ◌≤◌, ◌≡◌, sym, ap, inl, inr, ◌∷◌, Bool, true, false, List, [], All, Memᴰ, arith,
  Bool-cases,
}
use mathlib.Core.Path.{subst}
use awtrix_controller.Instants.{Timestamp}
use awtrix_controller.Scheduler.{
  Phase, ready, asleep, running, returned, Job, Scheduler, Task, slept, woken_by_cancel, fired,
  finished, OneOf, here, there, Step, time_passed, scheduled, cancelled, cancelled_parent, task,
  new, go_to_sleep, after_action, spawned, schedule, cancel,
}

-- A run in which the wall clock goes with tokio's: it shows `offset` more.
pub data Synced (offset : ℕ) (s : Scheduler) : Scheduler → Type 0 where
  begun : s.wall ≡ s.elapsed + offset → Synced offset s s
  later :
      {t u : Scheduler}
      → Synced offset s t
      → Step t u
      → u.wall ≡ u.elapsed + offset
      → Synced offset s u

-- A sleep does not end before the job is due.
abbrev WakesInTime : ℕ → Timestamp → Phase → Type 0
WakesInTime offset due (asleep wake) = due ≤ wake + offset
WakesInTime offset due ready = Unit
WakesInTime offset due running = Unit
WakesInTime offset due returned = Unit

abbrev IsTimed : ℕ → Job → Type 0
IsTimed offset j = WakesInTime offset j.fire_at j.phase

module _ (offset : ℕ) where
  Task-IsTimed :
      (s : Scheduler) (j k : Job) → s.wall ≡ s.elapsed + offset → Task s j k → IsTimed offset k
  unfolding go_to_sleep after_action
  Task-IsTimed s j k c (slept p e) = subst (IsTimed offset) (sym e) (omega (arith, c))
  Task-IsTimed s j k c (woken_by_cancel w p _ e) = subst (IsTimed offset) (sym e) tt
  Task-IsTimed s j k c (fired w p _ _ e) = subst (IsTimed offset) (sym e) tt
  Task-IsTimed s j k c (finished p e) = elim (Bool-cases s.cancelled) [
    | inl b ↦ subst (IsTimed offset) (sym (rw (b, after_action) at e)) tt
    | inr b ↦ subst (IsTimed offset) (sym (rw (b, after_action) at e)) tt
  ]

  OneOf-IsTimed :
      (s : Scheduler) {js ks : List Job}
      → s.wall ≡ s.elapsed + offset
      → OneOf s js ks
      → All (IsTimed offset) js
      → All (IsTimed offset) ks
  OneOf-IsTimed s c (here {j} {k} t) (h, hs) = (Task-IsTimed s j k c t, hs)
  OneOf-IsTimed s c (there o) (h, hs) = (h, OneOf-IsTimed s c o hs)

  Step-IsTimed :
      (s t : Scheduler)
      → s.wall ≡ s.elapsed + offset
      → Step s t
      → All (IsTimed offset) s.jobs
      → All (IsTimed offset) t.jobs
  unfolding schedule spawned cancel
  Step-IsTimed s t c (time_passed w e h) hs = hs
  Step-IsTimed s t c (scheduled f r) hs = (tt, hs)
  Step-IsTimed s t c cancelled hs = hs
  Step-IsTimed s t c cancelled_parent hs = hs
  Step-IsTimed s t c (task o) hs = OneOf-IsTimed s c o hs

  Synced-IsTimed :
      (s : Scheduler) {t : Scheduler}
      → Synced offset s t
      → All (IsTimed offset) s.jobs
      → (t.wall ≡ t.elapsed + offset) × All (IsTimed offset) t.jobs
  Synced-IsTimed s (begun c) hs = (c, hs)
  Synced-IsTimed s (later {t} {u} r st c) hs =
      let (c', hs') = Synced-IsTimed s r hs in (c, Step-IsTimed t u c' st hs')

All-Memᴰ : (P : Job → Type 0) (x : Job) (xs : List Job) → Memᴰ x xs → All P xs → P x
All-Memᴰ P x [] m h = elim m [ ]
All-Memᴰ P x (y ∷ ys) (Memᴰ.head e) h = subst P (sym e) h.0
All-Memᴰ P x (y ∷ ys) (Memᴰ.tail m) h = All-Memᴰ P x ys m h.1

abbrev is_running : Phase → Bool
is_running running = true
is_running returned = false
is_running ready = false
is_running (asleep _) = false

true≢false : (b : Bool) → b ≡ true → b ≡ false → ⊥
true≢false b h k = cc

-- Where the wall clock goes with the clock that measures the sleeps, a task that starts an action does
-- so when it is due, or later.
pub Task-due :
    (offset : ℕ) (wall : Timestamp) (elapsed : ℕ) (parent_cancelled : Bool) (t : Scheduler)
    (j k : Job)
    → Synced offset (new wall elapsed parent_cancelled) t
    → Memᴰ j t.jobs
    → Task t j k
    → k.phase ≡ running
    → j.fire_at ≤ t.wall
unfolding new go_to_sleep after_action
Task-due offset wall elapsed parent_cancelled t j k r m (slept p e) h =
    absurd
      (true≢false (is_running k.phase) (ap is_running h) (ap (λ (x : Job). is_running x.phase) e))
Task-due offset wall elapsed parent_cancelled t j k r m (woken_by_cancel w p _ e) h =
    absurd
      (true≢false (is_running k.phase) (ap is_running h) (ap (λ (x : Job). is_running x.phase) e))
Task-due offset wall elapsed parent_cancelled t j k r m (finished p e) h = absurd (
    true≢false (is_running k.phase) (ap is_running h)
      (not_running (ap (λ (x : Job). is_running x.phase) e)))
  where
    not_running :
        is_running k.phase ≡ is_running (after_action t.cancelled j).phase
        → is_running k.phase ≡ false
    not_running q = ground arith
Task-due offset wall elapsed parent_cancelled t j k r m (fired w p _ l e) h =
    let (c, timed) = Synced-IsTimed offset (new wall elapsed parent_cancelled) r tt in
    let due : WakesInTime offset j.fire_at (asleep w) =
      subst (WakesInTime offset j.fire_at) p (All-Memᴰ (IsTimed offset) j t.jobs m timed) in
    omega (arith, c, l, due)
