-- ===== src/Weather/State/Deactivation.antt =====
-- src/weather/state/mod.rs: a type over several polls, absent from all or the same in all.
use awtrix_controller.Prelude.{
  ℕ, ◌≡◌, refl, ◌∙◌, ap, ◌<◌, ◌≤◌, suc, ◌+◌, true, false, none, List, [], ◌∷◌, arith, All, ltb,
  length, Bool-cases, inl, inr,
}
use awtrix_controller.Prelude.Int.{ℤ, pos}
use awtrix_controller.Instants.{Timestamp, SignedDuration, Instants}
use awtrix_controller.Weather.EventType.{EventType, EventCandidate}
use awtrix_controller.Weather.State.{StateManager, latest, missed, process, is_active}
use awtrix_controller.Weather.State.PerType.{process-stepped}
use awtrix_controller.Weather.State.Bounds.{missed_inactive, missed_counts, missed_ends}

-- A poll: when it ran and what it detected.
pub record Poll : Type 0 where
  pub now : Timestamp
  pub candidates : List EventCandidate

-- The states after several polls, the first one first.
unfoldable pub poll_all : Instants → SignedDuration → ℤ → StateManager → List Poll → StateManager
poll_all time repeat_interval inactive_after states [] = states
poll_all time repeat_interval inactive_after states (p ∷ ps) =
    poll_all time repeat_interval inactive_after
      (process time p.now repeat_interval inactive_after states p.candidates).0 ps

-- No poll detected the type.
abbrev pub IsAbsent : EventType → List Poll → Type 0
IsAbsent e ps = All (λ p. latest p.candidates e ≡ none) ps

module _ (time : Instants) (repeat_interval : SignedDuration) where
  -- A poll without the type.
  process-absent :
      (i : ℤ) (states : StateManager) (p : Poll) (e : EventType)
      → latest p.candidates e ≡ none
      → (process time p.now repeat_interval i states p.candidates).0 e
        ≡ missed time p.now repeat_interval i (states e)
  process-absent i states p e h =
      process-stepped time p.now repeat_interval i states p.candidates e ∙ rw h refl

  -- A type that is inactive stays so until it is detected, and its state stays the same.
  pub poll_all-inactive :
      (i : ℤ) (states : StateManager) (ps : List Poll) (e : EventType)
      → IsAbsent e ps
      → (states e).active ≡ false
      → poll_all time repeat_interval i states ps e ≡ states e
  unfolding poll_all
  poll_all-inactive i states [] e absent h = refl
  poll_all-inactive i states (p ∷ ps) e (a, absent) h =
      let states' = (process time p.now repeat_interval i states p.candidates).0 in
      let same : states' e ≡ states e =
        process-absent i states p e a ∙ missed_inactive time p.now repeat_interval i (states e) h in
      poll_all-inactive i states' ps e absent (ap (λ s. s.active) same ∙ h) ∙ same

  -- From a number of missing polls that has not made it inactive yet.
  poll_all-counts :
      (n m : ℕ) (states : StateManager) (ps : List Poll) (e : EventType)
      → n ≤ 9223372036854775807
      → IsAbsent e ps
      → (states e).active ≡ true
      → (states e).missing_polls ≡ pos m
      → m < n
      → (poll_all time repeat_interval (pos n) states ps e).active ≡ ltb (m + length ps) n
  unfolding poll_all
  poll_all-counts n m states [] e high absent a h lt = ground (arith, a)
  poll_all-counts n m states (p ∷ ps) e high (none_found, absent) a h lt =
      let states' = (process time p.now repeat_interval (pos n) states p.candidates).0 in
      let step = process-absent (pos n) states p e none_found in
      elim (Bool-cases (ltb (suc m) n)) [
        | inl b ↦
            let next =
              step
              ∙ missed_counts time p.now repeat_interval n m (states e) high a h (ground arith) in
            poll_all-counts n (suc m) states' ps e high absent (ap (λ s. s.active) next ∙ a)
              (ap (λ s. s.missing_polls) next) (ground arith)
            ∙ ap (λ k. ltb k n) (omega arith)
        | inr b ↦
            let next =
              step
              ∙ missed_ends time p.now repeat_interval n m (states e) high a h lt (ground arith) in
            ap (λ s. s.active)
              (poll_all-inactive (pos n) states' ps e absent (ap (λ s. s.active) next) ∙ next)
            ∙ ground arith
      ]

  -- A type that the last poll detected, and that none of the next polls detects, is active exactly
  -- while these are fewer than the configured number, when that is at least 1 and an `i64` can hold
  -- it.
  pub poll_all-is_active :
      (n : ℕ) (states : StateManager) (ps : List Poll) (e : EventType)
      → 1 ≤ n
      → n ≤ 9223372036854775807
      → IsAbsent e ps
      → (states e).active ≡ true
      → (states e).missing_polls ≡ pos 0
      → is_active (poll_all time repeat_interval (pos n) states ps) e ≡ ltb (length ps) n
  unfolding is_active
  poll_all-is_active n states ps e low high absent a h =
      poll_all-counts n 0 states ps e high absent a h low ∙ ap (λ k. ltb k n) (omega arith)
