-- ===== src/State.antt =====
-- src/state.rs: the fatal error of a poisoned lock, and the record of the first one. A lock from
-- `std::sync` is its value and its poison flag, which a writer that panics sets.
pub mod Sticky
use awtrix_controller.Prelude.{
  ◌≡◌, refl, ◌⊎◌, inl, inr, Bool-cases, Bool, true, false, Option, none, some, Result, ok, err,
  map_err,
}
use awtrix_controller.Prelude.Text.{Text}

-- `StateError::Poisoned`, with the component's name.
pub data StateError : Type 0 where
  poisoned : Text → StateError

pub record Lock (A : Type 0) : Type 0 where
  pub value : A
  pub is_poisoned : Bool

-- `LockResult`: a guard on the value, or the poison error, which the source drops.
abbrev pub LockResult : Type 0 → Type 0
LockResult A = Result (Unit {0}) A

-- `RwLock::read`, `RwLock::write` and `Mutex::lock`.
abbrev pub acquire : {A : Type 0} → Lock A → LockResult A
acquire l = elim l.is_poisoned [ true ↦ err tt | false ↦ ok l.value ]

-- A write through the guard.
abbrev pub put : {A : Type 0} → A → Lock A → Lock A
put a l = record l { value = a }

unfoldable pub checked : {A : Type 0} → LockResult A → Text → Result StateError A
checked result component = map_err (λ _. poisoned component) result

pub checked_ok :
    {A : Type 0} (l : Lock A) (component : Text)
    → l.is_poisoned ≡ false
    → checked (acquire l) component ≡ ok l.value
unfolding checked
checked_ok l component h = rw h refl

pub checked_cases :
    {A : Type 0} (l : Lock A) (component : Text)
    → (checked (acquire l) component ≡ err (poisoned component))
      ⊎ (checked (acquire l) component ≡ ok l.value)
unfolding checked
checked_cases l component = elim (Bool-cases l.is_poisoned) [
  | inl h ↦ inl (rw h refl)
  | inr h ↦ inr (rw h refl)
]

-- `Failures`: the watch channel's value and whether the token is cancelled.
pub record Failures : Type 0 where
  pub first : Option StateError
  pub cancelled : Bool

unfoldable pub new : Bool → Failures
new cancelled = record { first = none; cancelled = cancelled }

-- The closure given to `send_if_modified`.
abbrev keep_first : Option StateError → StateError → Option StateError
keep_first (some e) error = some e
keep_first none error = some error

unfoldable pub report : Failures → StateError → Failures
report f error = record { first = keep_first f.first error; cancelled = true }

unfoldable pub error : Failures → Option StateError
error f = f.first

-- `failed` waits until the channel holds an error: its loop returns when this is one.
unfoldable pub failed : Failures → Option StateError
failed f = f.first
