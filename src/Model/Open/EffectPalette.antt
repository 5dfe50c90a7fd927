-- ===== src/Model/Open/EffectPalette.antt =====
-- src/model/enums.rs: `EffectPalette`, one of the open string enums that the macro declares.
use awtrix_controller.Prelude.{if◌then◌else◌}
use awtrix_controller.Prelude.Text.{Text, bytes, same}

pub data EffectPalette : Type 0 where
  cloud forest heat lava ocean party rainbow stripe : EffectPalette
  other : Text → EffectPalette

unfoldable pub from_name : Text → EffectPalette
unfolding same
from_name name =
    if same name (bytes "Cloud")
    then cloud
    else if same name (bytes "Forest")
    then forest
    else if same name (bytes "Heat")
    then heat
    else if same name (bytes "Lava")
    then lava
    else if same name (bytes "Ocean")
    then ocean
    else if same name (bytes "Party")
    then party
    else if same name (bytes "Rainbow")
    then rainbow
    else if same name (bytes "Stripe")
    then stripe
    else other name

unfoldable pub as_str : EffectPalette → Text
as_str cloud = bytes "Cloud"
as_str forest = bytes "Forest"
as_str heat = bytes "Heat"
as_str lava = bytes "Lava"
as_str ocean = bytes "Ocean"
as_str party = bytes "Party"
as_str rainbow = bytes "Rainbow"
as_str stripe = bytes "Stripe"
as_str (other name) = name
