-- ===== src/Weather/Controller/Overlay.antt =====
-- src/weather/controller/mod.rs: what the publisher was last told of the overlay, and what the
-- controller remembers.
use awtrix_controller.Prelude.{
  ◌≡◌, ◌≢◌, refl, sym, ap, ◌∙◌, not, Option, none, List, [], ◌∷◌, ◌++◌, Result, ok, err, Bool-cases,
  inl, inr, if◌then◌else◌,
}
use mathlib.Core.Bool.{true≢false}
use awtrix_controller.Prelude.Text.{Text, bytes}
use awtrix_controller.Instants.{Timestamp, Instants, Floats}
use awtrix_controller.State.{StateError, checked_cases}
use awtrix_controller.Config.Timezone.{Zones}
use awtrix_controller.Model.Enums.{
  OverlayEffect, same_overlay, eq_of_same_overlay, same_overlay_refl,
}
use awtrix_controller.Weather.EventType.{EventCandidate}
use awtrix_controller.Weather.Events.{Point}
use awtrix_controller.Weather.Mapping.{select_overlay}
use awtrix_controller.Weather.Controller.{
  Request, set_overlay, publish, Fetched, points, cancelled, fetch_error, elapsed, Self, Outcome,
  publish_candidate, publish_all, apply_overlay, fetch_failed, notify, detect, and_then, poll,
}

-- The overlay after some requests.
unfoldable pub shown : Option OverlayEffect → List Request → Option OverlayEffect
shown o [] = o
shown o (set_overlay o' ∷ rs) = shown o' rs
shown o (publish _ _ ∷ rs) = shown o rs

-- Every change of the overlay is to another one.
abbrev pub IsChanging : Option OverlayEffect → List Request → Type 0
IsChanging o [] = Unit
IsChanging o (set_overlay o' ∷ rs) = (o ≢ o') × IsChanging o' rs
IsChanging o (publish _ _ ∷ rs) = IsChanging o rs

shown-append :
    (o : Option OverlayEffect) (rs rs' : List Request)
    → shown o (rs ++ rs') ≡ shown (shown o rs) rs'
unfolding shown
shown-append o [] rs' = refl
shown-append o (set_overlay o' ∷ rs) rs' = shown-append o' rs rs'
shown-append o (publish _ _ ∷ rs) rs' = shown-append o rs rs'

IsChanging-append :
    (o : Option OverlayEffect) (rs rs' : List Request)
    → IsChanging o rs
    → IsChanging (shown o rs) rs'
    → IsChanging o (rs ++ rs')
unfolding shown
IsChanging-append o [] rs' h h' = h'
IsChanging-append o (set_overlay o' ∷ rs) rs' (d, h) h' = (d, IsChanging-append o' rs rs' h h')
IsChanging-append o (publish _ _ ∷ rs) rs' h h' = IsChanging-append o rs rs' h h'

changed-Keeps :
    (m o : Option OverlayEffect)
    → (shown m (if not (same_overlay m o) then set_overlay o ∷ [] else []) ≡ o)
      × IsChanging m (if not (same_overlay m o) then set_overlay o ∷ [] else [])
unfolding shown
changed-Keeps m o = elim (Bool-cases (same_overlay m o)) [
  | inl e ↦ rw e (eq_of_same_overlay m o e, tt)
  | inr e ↦
      rw e (refl, (λ p. true≢false (sym (same_overlay_refl m) ∙ ap (same_overlay m) p ∙ e), tt))
]

module _ (time : Instants) (fl : Floats) (z : Zones) where
  abbrev remembered : Self time fl z → Option OverlayEffect
  remembered c = c.memory.value.overlay

  -- The requests of an outcome change the overlay from the one remembered before to the one after.
  abbrev pub Keeps : Option OverlayEffect → Outcome time fl z → Type 0
  Keeps before o = (shown before o.requests ≡ remembered o.after) × IsChanging before o.requests

  apply_overlay-Keeps :
      (c : Self time fl z) (o : Option OverlayEffect)
      → Keeps (remembered c) (apply_overlay time fl z c o)
  unfolding apply_overlay shown
  apply_overlay-Keeps c o = elim (checked_cases c.memory (bytes "weather notification cache")) [
    | inl e ↦ rw (e, apply_overlay) (refl, tt)
    | inr e ↦ rw (e, apply_overlay) (changed-Keeps (remembered c) o)
  ]

  publish_all-Keeps :
      (c : Self time fl z) (connected : EventCandidate → List Text) (cs : List EventCandidate)
      (o : Option OverlayEffect)
      → (shown o (publish_all time fl z c connected cs) ≡ o)
        × IsChanging o (publish_all time fl z c connected cs)
  unfolding publish_all shown
  publish_all-Keeps c connected [] o = (refl, tt)
  publish_all-Keeps c connected (d ∷ ds) o =
      let rs = publish_candidate time fl z c (connected d) d in
      let (s, h) = publish_one (connected d) in
      let (s', h') = publish_all-Keeps c connected ds o in
      (shown-append o rs _ ∙ rw s s', IsChanging-append o rs _ h (rw s h'))
    where
      publish_one :
          (ids : List Text)
          → (shown o (publish_candidate time fl z c ids d) ≡ o)
            × IsChanging o (publish_candidate time fl z c ids d)
      publish_one [] = (refl, tt)
      publish_one (i ∷ ids) = publish_one ids

  notify-Keeps :
      (c : Self time fl z) (connected : EventCandidate → List Text) (t now : Timestamp)
      (cs : List EventCandidate)
      → Keeps (remembered c) (notify time fl z c connected t now cs)
  unfolding notify shown
  notify-Keeps c connected t now [] = (refl, tt)
  notify-Keeps c connected t now (d ∷ ds) =
      elim (checked_cases c.memory (bytes "weather notification cache")) [
        | inl e ↦ rw (e, notify) (refl, tt)
        | inr e ↦ rw (e, notify) (publish_all-Keeps c connected (d ∷ ds) (remembered c))
      ]

  detect-Keeps :
      (c : Self time fl z) (connected : EventCandidate → List Text) (t now : Timestamp)
      (ps : List (Point time fl))
      → Keeps (remembered c) (detect time fl z c connected t now ps)
  unfolding detect shown
  detect-Keeps c connected t now ps = elim (checked_cases c.states (bytes "weather event state")) [
    | inl e ↦ rw (e, detect) (refl, tt)
    | inr e ↦ rw (e, detect) (notify-Keeps _ connected t now _)
  ]

  fetch_failed-Keeps : (c : Self time fl z) → Keeps (remembered c) (fetch_failed time fl z c)
  unfolding fetch_failed shown
  fetch_failed-Keeps c = elim (checked_cases c.states (bytes "weather event state")) [
    | inl e ↦ rw (e, fetch_failed) (refl, tt)
    | inr e ↦ rw (e, fetch_failed) (apply_overlay-Keeps _ none)
  ]

  and_then-Keeps :
      (before : Option OverlayEffect) (o : Outcome time fl z)
      (f : Self time fl z → Outcome time fl z)
      → Keeps before o
      → ((c : Self time fl z) → Keeps (remembered c) (f c))
      → Keeps before (and_then time fl z o f)
  unfolding and_then
  and_then-Keeps before o f (s, h) k = go o.result refl
    where
      go : (r : Result StateError (Unit {0})) → o.result ≡ r → Keeps before (and_then time fl z o f)
      go (err e) q = rw (q, and_then) (s, h)
      go (ok _) q =
          let (s', h') = k o.after in
          rw (q, and_then)
            (
              shown-append before o.requests _ ∙ rw s s',
              IsChanging-append before o.requests _ h (rw s h'),
            )

  -- Whatever a poll comes to, a fetch that fails, times out or is cancelled and a poisoned lock
  -- included: when the publisher shows the overlay that the controller remembers, it does so after
  -- the poll as well, and each overlay that the poll sends differs from the one shown until then.
  pub poll-overlay :
      (c : Self time fl z) (connected : EventCandidate → List Text) (fetch_start now : Timestamp)
      (fetched : Fetched (Point time fl)) (before : Option OverlayEffect)
      → before ≡ c.memory.value.overlay
      → let o = poll time fl z c connected fetch_start now fetched in
        (shown before o.requests ≡ o.after.memory.value.overlay) × IsChanging before o.requests
  unfolding poll shown
  poll-overlay c connected t now cancelled before h = (h, tt)
  poll-overlay c connected t now fetch_error before h = rw h (fetch_failed-Keeps c)
  poll-overlay c connected t now elapsed before h = rw h (fetch_failed-Keeps c)
  poll-overlay c connected t now (points ps) before h =
      let o = select_overlay time ps now c.config.overlay_horizon_minutes in
      rw h (
        and_then-Keeps (remembered c) (apply_overlay time fl z c o) _ (apply_overlay-Keeps c o)
          (λ c'. detect-Keeps c' connected t now ps))
