-- ===== src/Broker/Hook/Auth.antt =====
-- src/broker/hook.rs: whom `authenticate` lets in, and what the hook answers rmqtt.
use awtrix_controller.Prelude.{◌≡◌, ◌≢◌, ◌↔◌, true, false, Option, none, some, arith, ap}
use awtrix_controller.Prelude.Text.{Text, same_iff}
use awtrix_controller.Broker.Hook.{
  ControllerHook, allow, not_authorized, not_found, authenticate, matches,
}

pub matches_iff : (o : Option Text) (t : Text) → (matches o t ≡ true) ↔ (o ≡ some t)
matches_iff none t = (λ h. cc, λ h. cc)
matches_iff (some s) t = (λ h. ap some ((same_iff s t).0 h), λ h. (same_iff s t).1 (ground arith))

-- `authenticate` allows a client exactly when the broker is not closing and both the username and
-- the password are given and are the configured ones, and answers that it is not authorized exactly
-- while the broker is closing. It never answers `NotFound`, on which rmqtt would ask another hook.
pub authenticate_verdicts :
    (h : ControllerHook) (username password : Option Text)
    → let verdict = authenticate h username password in
      ((verdict ≡ allow)
        ↔ ((h.closing ≡ false) × (username ≡ some h.username) × (password ≡ some h.password)))
      × ((verdict ≡ not_authorized) ↔ (h.closing ≡ true))
      × (verdict ≢ not_found)
unfolding authenticate
authenticate_verdicts h u p = (
  (
    λ e. ground (arith, (matches_iff u h.username).0, (matches_iff p h.password).0),
    λ (c, a, b). ground (arith, (matches_iff u h.username).1 a, (matches_iff p h.password).1 b),
  ),
  (λ e. ground arith, λ c. ground arith),
  λ e. ground arith,
)
