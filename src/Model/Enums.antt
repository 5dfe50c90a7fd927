-- ===== src/Model/Enums.antt =====
-- src/model/enums.rs: the open string enums, of which the overlay is the one that the weather uses.
use awtrix_controller.Prelude.{
  Option, none, some, ℕ, ◌==◌, ◌&&◌, ap, arith, [], ◌≡◌, refl, Bool, true, false, if◌then◌else◌,
}
use awtrix_controller.Prelude.Text.{Text, bytes, same, eq_of_same, same_refl}

pub data OverlayEffect : Type 0 where
  clear snow rain drizzle storm thunder frost : OverlayEffect
  other : Text → OverlayEffect

-- `OverlayEffect::from_name`, which the macro writes.
unfoldable pub from_name : Text → OverlayEffect
unfolding same
from_name name =
    if same name (bytes "clear")
    then clear
    else if same name (bytes "snow")
    then snow
    else if same name (bytes "rain")
    then rain
    else if same name (bytes "drizzle")
    then drizzle
    else if same name (bytes "storm")
    then storm
    else if same name (bytes "thunder")
    then thunder
    else if same name (bytes "frost")
    then frost
    else other name

unfoldable pub as_str : OverlayEffect → Text
as_str clear = bytes "clear"
as_str snow = bytes "snow"
as_str rain = bytes "rain"
as_str drizzle = bytes "drizzle"
as_str storm = bytes "storm"
as_str thunder = bytes "thunder"
as_str frost = bytes "frost"
as_str (other name) = name

-- The derived `==` of `Option<OverlayEffect>`: of the variants, then of what they carry.
abbrev variant : OverlayEffect → ℕ
variant clear = 0
variant snow = 1
variant rain = 2
variant drizzle = 3
variant storm = 4
variant thunder = 5
variant frost = 6
variant (other name) = 7

abbrev carried : OverlayEffect → Text
carried (other name) = name
carried _ = []

abbrev pub same_effect : OverlayEffect → OverlayEffect → Bool
same_effect a b = (variant a == variant b) && same (carried a) (carried b)

pub eq_of_same_effect : (a b : OverlayEffect) → same_effect a b ≡ true → a ≡ b
eq_of_same_effect a b h = ground (arith, eq_of_same (carried a) (carried b))

abbrev pub same_overlay : Option OverlayEffect → Option OverlayEffect → Bool
same_overlay none none = true
same_overlay (some a) (some b) = same_effect a b
same_overlay _ _ = false

pub eq_of_same_overlay : (a b : Option OverlayEffect) → same_overlay a b ≡ true → a ≡ b
eq_of_same_overlay none none h = refl
eq_of_same_overlay none (some b) h = cc
eq_of_same_overlay (some a) none h = cc
eq_of_same_overlay (some a) (some b) h = ap some (eq_of_same_effect a b h)

pub same_overlay_refl : (a : Option OverlayEffect) → same_overlay a a ≡ true
same_overlay_refl none = refl
same_overlay_refl (some a) = ground (arith, same_refl (carried a))
