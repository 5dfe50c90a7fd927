-- ===== src/Weather/State/PerType.antt =====
-- src/weather/state/mod.rs: a poll treats each event type by itself, and notifies exactly the last
-- candidates of their types that are new, escalated, changed or due again.
use awtrix_controller.Prelude.{
  ◌≡◌, ◌≢◌, refl, sym, ap, ◌⊎◌, ◌↔◌, inl, inr, ◌<◌, true, false, Option, none, some, List, Memᴰ,
  arith, filter_map, filter_map-Memᴰ, Memᴰ-filter_map, cons_option-append, find_lem, Bool-cases,
}
use mathlib.Core.List.{append_assoc, reverse}
use mathlib.Core.Path.{subst}
use mathlib.Core.Option.{some-injective, none-ne-some}
use awtrix_controller.Prelude.Int.{ℤ, ◌≤ℤ◌}
use awtrix_controller.Prelude.Text.{same_iff}
use awtrix_controller.Instants.{Timestamp, SignedDuration, Instants}
use awtrix_controller.Weather.EventType.{
  EventType, thunderstorm, all_types, EventCandidate, rank, same_type, same_type→eq, Memᴰ-all_types,
}
use awtrix_controller.Weather.State.{
  EventState, StateManager, latest, notice, stepped, process, should_notify, is_repeat_due,
}

-- The candidate found for a type is of that type.
pub latest-type :
    (candidates : List EventCandidate) (e : EventType) (c : EventCandidate)
    → latest candidates e ≡ some c
    → c.event_type ≡ e
unfolding latest
latest-type candidates e c h =
    same_type→eq c.event_type e
      (find_lem (λ x. same_type x.event_type e) (reverse candidates) c h).1

module _ (time : Instants) (now : Timestamp) (repeat_interval : SignedDuration) where
  -- Never sent, or sent at least the interval ago.
  abbrev pub IsDue : Option Timestamp → Type 0
  IsDue none = Unit
  IsDue (some t) = repeat_interval ≤ℤ time.duration_since now t

  -- Why a candidate is notified: its type was not active, its severity is higher, its fingerprint
  -- is another, or the last notice was never sent or is at least the interval old.
  abbrev pub IsNews : EventState → EventCandidate → Type 0
  IsNews s c =
      (s.active ≡ false)
      ⊎ (rank s.severity < rank (some c.severity))
      ⊎ (c.fingerprint ≢ s.fingerprint)
      ⊎ IsDue s.last_sent_at

module _ (time : Instants) (now : Timestamp) (repeat_interval : SignedDuration) (inactive_after : ℤ)
    (states : StateManager) (candidates : List EventCandidate) where
  -- The state of each type after a poll is that of its own last candidate and its own state before,
  -- whatever the other types do.
  pub process-stepped :
      (e : EventType)
      → (process time now repeat_interval inactive_after states candidates).0 e
        ≡ stepped time now repeat_interval inactive_after (states e) (latest candidates e)
  unfolding process
  process-stepped thunderstorm = refl
  process-stepped _ = refl

  -- The notice of one type.
  abbrev notice_of : EventType → Option EventCandidate
  notice_of e = notice time now repeat_interval inactive_after (states e) (latest candidates e)

  -- The notices of a poll, in the order of the types.
  pub process-notice :
      (process time now repeat_interval inactive_after states candidates).1
      ≡ filter_map notice_of all_types
  unfolding process
  process-notice = simp (append_assoc, cons_option-append)

  is_repeat_due_iff :
      (o : Option Timestamp)
      → (is_repeat_due time now repeat_interval inactive_after o ≡ true)
        ↔ IsDue time now repeat_interval o
  is_repeat_due_iff none = (λ _. tt, λ _. refl)
  is_repeat_due_iff (some t) = (λ h. ground arith, λ h. ground arith)

  should_notify_iff :
      (s : EventState) (c : EventCandidate)
      → (should_notify time now repeat_interval inactive_after s c ≡ true)
        ↔ IsNews time now repeat_interval s c
  unfolding should_notify
  should_notify_iff s c =
      let (due, due') = is_repeat_due_iff s.last_sent_at in
      let (eq, eq') = same_iff c.fingerprint s.fingerprint in
      (λ h. ground (arith, due, eq'), λ h. ground (arith, due', eq))

  notice_split :
      (s : EventState) (o : Option EventCandidate) (c : EventCandidate)
      → notice time now repeat_interval inactive_after s o ≡ some c
      → (o ≡ some c) × IsNews time now repeat_interval s c
  notice_split s none c h = absurd (none-ne-some c h)
  notice_split s (some d) c h =
      elim (Bool-cases (should_notify time now repeat_interval inactive_after s d)) [
        | inl e ↦
            let same = some-injective d c (rw e at h) in
            (
              ap some same,
              subst (IsNews time now repeat_interval s) same ((should_notify_iff s d).0 e),
            )
        | inr e ↦ absurd (none-ne-some c (rw e at h))
      ]

  -- A poll notifies exactly the candidates that are the last of their type and are news to the state
  -- that their type had.
  pub process_notifies :
      (c : EventCandidate)
      → Memᴰ c (process time now repeat_interval inactive_after states candidates).1 ↔ (
          (latest candidates c.event_type ≡ some c)
          × IsNews time now repeat_interval (states c.event_type) c)
  process_notifies c = rw process-notice (there, back)
    where
      split :
          (e : EventType)
          → notice_of e ≡ some c
          → (latest candidates e ≡ some c) × IsNews time now repeat_interval (states e) c
      split e h = notice_split (states e) (latest candidates e) c h

      there :
          Memᴰ c (filter_map notice_of all_types)
          → (latest candidates c.event_type ≡ some c)
            × IsNews time now repeat_interval (states c.event_type) c
      there m =
          let (e, _, h) = filter_map-Memᴰ notice_of c all_types m in
          let (found, news) = split e h in
          subst
            (λ e'. (latest candidates e' ≡ some c) × IsNews time now repeat_interval (states e') c)
            (sym (latest-type candidates e c found)) (found, news)

      back :
          (latest candidates c.event_type ≡ some c)
            × IsNews time now repeat_interval (states c.event_type) c
          → Memᴰ c (filter_map notice_of all_types)
      back (found, news) =
          Memᴰ-filter_map notice_of c.event_type all_types (Memᴰ-all_types c.event_type)
            (rw found (rw ((should_notify_iff (states c.event_type) c).1 news)))
