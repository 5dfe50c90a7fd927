-- ===== src/Config/Timezone.antt =====
-- src/config/timezone.rs: the lookup of a time zone's name.
use awtrix_controller.Prelude.{
  ℕ, [], ◌||◌, Bool, false, Option, none, some, Result, ok, err, if◌then◌else◌,
}
use awtrix_controller.Prelude.Text.{Text, bytes, same}

-- jiff's time zones: `UTC`, `system()`, the bundled database, and what the controller asks of one.
pub record Zones : Type 1 where
  pub Zone : Type 0
  pub utc : Zone
  pub system : Zone
  -- `TimeZoneDatabase::bundled().get`.
  pub get : Text → Option Zone
  pub iana_name : Zone → Option Text
  -- An instant in the zone, printed by `%H:%M`.
  pub hours_minutes : Zone → ℕ → Text

-- The derived `==` of `Option<&str>` against `Some(name)`.
abbrev is_name : Option Text → Text → Bool
is_name none name = false
is_name (some n) name = same n name

-- The error is the name.
unfoldable pub load_time_zone : (z : Zones) → Text → Result Text z.Zone
unfolding same
load_time_zone z name =
    if same name [] || same name (bytes "UTC")
    then ok z.utc
    else if same name (bytes "Local")
    then ok z.system
    else elim (z.get name) [
      | none ↦ err name
      | some zone ↦ if is_name (z.iana_name zone) name then ok zone else err name
    ]
