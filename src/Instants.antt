-- ===== src/Instants.antt =====
-- What the program takes from outside: jiff's instants and Rust's `f64`.
--
-- A jiff `Timestamp` is the number of nanoseconds since `Timestamp::MIN`, so that earlier is less;
-- a `SignedDuration` is a signed number of nanoseconds, and their orders are those of the numbers.
-- What jiff computes with them is a parameter of the functions that use it.
use awtrix_controller.Prelude.{ℕ, Bool, Option}
use awtrix_controller.Prelude.Int.{ℤ}
use awtrix_controller.Prelude.Text.{Text}

abbrev pub Timestamp : Type 0
Timestamp = ℕ

abbrev pub SignedDuration : Type 0
SignedDuration = ℤ

pub record Instants : Type 0 where
  -- `Timestamp::saturating_add`, `none` for its error.
  pub saturating_add : Timestamp → SignedDuration → Option Timestamp
  -- `Timestamp::duration_since`, the later instant first.
  pub duration_since : Timestamp → Timestamp → SignedDuration
  -- `SignedDuration::from_secs`.
  pub from_secs : ℤ → SignedDuration
  -- `SignedDuration::MAX`.
  pub duration_max : SignedDuration
  -- `Timestamp::as_second`: whole seconds since the Unix epoch.
  pub as_second : Timestamp → ℤ

-- `f64` with the operations that the code uses. No law of floats is assumed.
pub record Floats : Type 1 where
  pub F : Type 0
  pub lt : F → F → Bool
  pub le : F → F → Bool
  pub minus : F → F → F
  pub times : F → F → F
  -- `literal n k` is the literal for `n / 10 ^ k`.
  pub literal : ℕ → ℕ → F
  -- jiff's `SignedDuration::try_from_secs_f64`, `none` for its error.
  pub try_from_secs_f64 : F → Option SignedDuration
  pub is_finite : F → Bool
  -- `as f64` of an integer, and `trunc() as i64` of a float in the range of `i64`.
  pub from_int : ℤ → F
  pub trunc : F → ℤ
  -- `-(2 ^ 63) <= value < 2 ^ 63`.
  pub fits_i64 : F → Bool
  -- `str::parse` and `to_string`.
  pub parse : Text → Option F
  pub show : F → Text
