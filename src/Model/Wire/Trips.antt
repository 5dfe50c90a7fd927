-- ===== src/Model/Wire/Trips.antt =====
-- src/model/text.rs: reading what is written.
use awtrix_controller.Prelude.{◌≡◌, refl, ap, some, List, [], ◌∷◌}
use awtrix_controller.Prelude.Text.{same}
use awtrix_controller.Model.Payload.{TextFragment, TextContent, plain, fragments}
use awtrix_controller.Model.Wire.{
  encode_fragments, encode_text, decode_members, decode_fragments, as_fragments, decode_text,
}

fragments_read : (fs : List TextFragment) → decode_fragments (encode_fragments fs) ≡ some fs
unfolding decode_fragments encode_fragments decode_members same
fragments_read [] = refl
fragments_read (f ∷ fs) = rw (fragments_read fs) refl

-- What a text is once it is written: no fragments are the empty string.
abbrev pub written : TextContent → TextContent
written (plain s) = plain s
written (fragments []) = plain []
written (fragments (f ∷ fs)) = fragments (f ∷ fs)

-- Each text is read back from what is written of it, but for the list of no fragments, which is read
-- back as the empty string.
pub decode_text-encode_text : (t : TextContent) → decode_text (encode_text t) ≡ some (written t)
unfolding decode_text encode_text
decode_text-encode_text (plain s) = refl
decode_text-encode_text (fragments []) = refl
decode_text-encode_text (fragments (f ∷ fs)) = ap as_fragments (fragments_read (f ∷ fs))
