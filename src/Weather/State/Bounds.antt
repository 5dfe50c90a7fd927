-- ===== src/Weather/State/Bounds.antt =====
-- src/weather/state/mod.rs: what holds of the state of every event type between polls.
use awtrix_controller.Prelude.{
  ℕ, ◌≡◌, refl, sym, ◌⊎◌, inl, inr, ◌<◌, ◌≤◌, suc, Bool, true, false, Option, none, some, List,
  arith, is_some, Bool-cases, ltb, if◌then◌else◌,
}
use mathlib.Core.Path.{subst}
use awtrix_controller.Prelude.Int.{ℤ, pos, wrapping_add}
use awtrix_controller.Instants.{Timestamp, SignedDuration, Instants}
use awtrix_controller.Weather.EventType.{EventType, EventCandidate}
use awtrix_controller.Weather.State.{
  EventState, StateManager, latest, stepped, process, should_notify, seen, missed,
}
use awtrix_controller.Weather.State.PerType.{process-stepped}

-- An inactive type counts no polls. An active one has fewer missing polls than make it inactive,
-- and knows its severity and when it was last sent and seen.
abbrev pub IsValid : ℕ → EventState → Type 0
IsValid inactive_after s =
    ((s.active ≡ false) × (s.missing_polls ≡ pos 0))
    ⊎ ((s.active ≡ true)
        × ((m : ℕ) × (s.missing_polls ≡ pos m) × (m < inactive_after))
        × (is_some s.severity ≡ true)
        × (is_some s.last_sent_at ≡ true)
        × (is_some s.last_seen_at ≡ true))

-- The count of missing polls does not wrap around.
pub wrapping_add_one :
    (m : ℕ) → m < 9223372036854775807 → wrapping_add (pos m) (pos 1) ≡ pos (suc m)
unfolding wrapping_add
wrapping_add_one m h = ground arith

is_some-if :
    (b : Bool) (t : Timestamp) (o : Option Timestamp)
    → is_some o ≡ true
    → is_some (if b then some t else o) ≡ true
is_some-if true t o h = refl
is_some-if false t o h = h

module _ (time : Instants) (now : Timestamp) (repeat_interval : SignedDuration) where
  pub missed_inactive :
      (inactive_after : ℤ) (s : EventState)
      → s.active ≡ false
      → missed time now repeat_interval inactive_after s ≡ s
  unfolding missed
  missed_inactive inactive_after s h = rw h refl

  -- One more poll without the type, while that is fewer than make it inactive.
  pub missed_counts :
      (n m : ℕ) (s : EventState)
      → n ≤ 9223372036854775807
      → s.active ≡ true
      → s.missing_polls ≡ pos m
      → suc m < n
      → missed time now repeat_interval (pos n) s ≡ record s { missing_polls = pos (suc m) }
  unfolding missed
  missed_counts n m s high a h lt = ground (arith, a, h, wrapping_add_one m)

  -- The poll without the type that makes it inactive.
  pub missed_ends :
      (n m : ℕ) (s : EventState)
      → n ≤ 9223372036854775807
      → s.active ≡ true
      → s.missing_polls ≡ pos m
      → m < n
      → n ≤ suc m
      → missed time now repeat_interval (pos n) s
        ≡ record s { active = false; missing_polls = pos 0 }
  unfolding missed
  missed_ends n m s high a h lt ge = ground (arith, a, h, wrapping_add_one m)

  missed-IsValid :
      (n : ℕ) (s : EventState)
      → n ≤ 9223372036854775807
      → IsValid n s
      → IsValid n (missed time now repeat_interval (pos n) s)
  missed-IsValid n s high (inl (a, h)) = rw (missed_inactive (pos n) s a) (inl (a, h))
  missed-IsValid n s high (inr (a, (m, h, lt), v, t, l)) = elim (Bool-cases (ltb (suc m) n)) [
    | inl b ↦
        rw (missed_counts n m s high a h (ground arith))
          (inr (a, (suc m, refl, ground arith), v, t, l))
    | inr b ↦ rw (missed_ends n m s high a h lt (ground arith)) (inl (refl, refl))
  ]

  seen-IsValid :
      (n : ℕ) (s : EventState) (c : EventCandidate)
      → 1 ≤ n
      → IsValid n s
      → IsValid n (seen time now repeat_interval (pos n) s c)
  unfolding seen should_notify
  seen-IsValid n s c low (inl (a, h)) = rw a (inr (refl, (0, refl, low), refl, refl, refl))
  seen-IsValid n s c low (inr (a, (m, h, lt), v, t, l)) = inr (
    refl,
    (0, refl, low),
    refl,
    is_some-if (should_notify time now repeat_interval (pos n) s c) now s.last_sent_at t,
    refl,
  )

  stepped-IsValid :
      (n : ℕ) (s : EventState) (o : Option EventCandidate)
      → 1 ≤ n
      → n ≤ 9223372036854775807
      → IsValid n s
      → IsValid n (stepped time now repeat_interval (pos n) s o)
  stepped-IsValid n s none low high v = missed-IsValid n s high v
  stepped-IsValid n s (some c) low high v = seen-IsValid n s c low v

  -- For a configured number of polls of at least 1 that an `i64` can hold, a poll keeps the state of
  -- every type valid: an inactive type counts no missing polls, and an active one counts fewer than
  -- make it inactive and has a severity and the times it was last sent and seen.
  pub process-IsValid :
      (n : ℕ) (states : StateManager) (candidates : List EventCandidate)
      → 1 ≤ n
      → n ≤ 9223372036854775807
      → ((e : EventType) → IsValid n (states e))
      → (e : EventType)
      → IsValid n ((process time now repeat_interval (pos n) states candidates).0 e)
  process-IsValid n states candidates low high v e =
      subst (IsValid n) (sym (process-stepped time now repeat_interval (pos n) states candidates e))
        (stepped-IsValid n (states e) (latest candidates e) low high (v e))
