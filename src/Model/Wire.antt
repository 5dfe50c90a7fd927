-- ===== src/Model/Wire.antt =====
-- src/model/text.rs: texts as they are written in JSON, and read back.
-- A text is serialized by hand in the source; the fragment's representation, and the reading of both, are
-- those that serde derives from the types: a struct is an object or the array of its fields, and an
-- untagged enum is its first variant that fits.
pub mod Trips
use awtrix_controller.Prelude.{
  ◌∷◌, Bool, true, false, Option, none, some, List, [], if◌then◌else◌, unwrap_or,
}
use awtrix_controller.Prelude.Int.{ℤ}
use awtrix_controller.Prelude.Text.{Text, bytes, same}
use awtrix_controller.Model.Payload.{
  TextFragment, TextContent, plain, fragments, DrawInstruction, pixel, line, rect, filled_rect,
  circle, filled_circle, text, bitmap,
}

-- A JSON value, the elements of an array, and the members of an object in their order; a number that is
-- not an integer is never written here, and refused where one is read.
mutual
  pub data Json : Type 0 where
    null fraction : Json
    boolean : Bool → Json
    number : ℤ → Json
    string : Text → Json
    array : Elements → Json
    object : Members → Json

  pub data Elements : Type 0 where
    nil : Elements
    item : Json → Elements → Elements

  pub data Members : Type 0 where
    end : Members
    member : Text → Json → Members → Members

-- `TextFragment`, whose two fields are always written.
abbrev pub encode_fragment : TextFragment → Json
encode_fragment f =
    object (member (bytes "t") (string f.text) (member (bytes "c") (string f.color) end))

unfoldable pub encode_fragments : List TextFragment → Elements
encode_fragments [] = nil
encode_fragments (f ∷ fs) = item (encode_fragment f) (encode_fragments fs)

-- `TextContent::serialize`: no fragments are written as the empty string.
unfoldable pub encode_text : TextContent → Json
encode_text (plain s) = string s
encode_text (fragments []) = string []
encode_text (fragments (f ∷ fs)) = array (encode_fragments (f ∷ fs))

-- The value of a field that has not been met yet; one that is met twice is refused.
abbrev pub fresh : Option Text → Json → Option Text
fresh none (string s) = some s
fresh _ _ = none

-- The fields met so far, and the members that are left; an unknown one is ignored, a missing one empty.
unfoldable pub decode_members : Option Text → Option Text → Members → Option TextFragment
decode_members t c end = some (record { text = unwrap_or t []; color = unwrap_or c [] })
decode_members t c (member key value rest) =
    if same key (bytes "t")
    then (elim (fresh t value) [ none ↦ none | some s ↦ decode_members (some s) c rest ])
    else if same key (bytes "c")
    then (elim (fresh c value) [ none ↦ none | some s ↦ decode_members t (some s) rest ])
    else decode_members t c rest

abbrev pub decode_fragment : Json → Option TextFragment
decode_fragment (object members) = decode_members none none members
decode_fragment (array nil) = some (record { text = []; color = [] })
decode_fragment (array (item (string t) nil)) = some (record { text = t; color = [] })
decode_fragment (array (item (string t) (item (string c) nil))) =
    some (record { text = t; color = c })
decode_fragment _ = none

unfoldable pub decode_fragments : Elements → Option (List TextFragment)
decode_fragments nil = some []
decode_fragments (item value rest) = elim (decode_fragment value) [
  | none ↦ none
  | some f ↦ elim (decode_fragments rest) [ none ↦ none | some fs ↦ some (f ∷ fs) ]
]

abbrev pub as_fragments : Option (List TextFragment) → Option TextContent
as_fragments none = none
as_fragments (some fs) = some (fragments fs)

unfoldable pub decode_text : Json → Option TextContent
decode_text (string s) = some (plain s)
decode_text (array elements) = as_fragments (decode_fragments elements)
decode_text _ = none
