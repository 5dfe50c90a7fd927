-- ===== src/Weather/Fetch/Escape.antt =====
-- src/weather/fetch/mod.rs: the escape of a query value, and the decoding of a query.
use awtrix_controller.Prelude.{
  ℕ, ◌+◌, ◌-◌, ◌*◌, ◌/◌, ◌%◌, ◌<◌, ◌≡◌, refl, ap, ◌∙◌, inl, inr, ◌∷◌, ◌++◌, true, [], arith, leb,
  ◌==◌, All, Bool-cases, if◌then◌else◌,
}
use awtrix_controller.Prelude.Text.{Text}
use awtrix_controller.Weather.Fetch.{is_unreserved, hex_digit, escape_byte, query_escape}

-- Where the decoding of a query stands: after a percent sign, and after the first of its two digits.
pub data Decoding : Type 0 where
  plain percent : Decoding
  half : ℕ → Decoding

abbrev pub hex_value : ℕ → ℕ
hex_value c = if leb c b'9' then c - b'0' else c - b'A' + 10

-- The decoding of `application/x-www-form-urlencoded`.
unfoldable pub decode_query : Decoding → Text → Text
decode_query d [] = []
decode_query plain (c ∷ s) =
    let escaped = decode_query percent s in
    let kept = (if c == b'+' then b' ' else c) ∷ decode_query plain s in
    if c == b'%' then escaped else kept
decode_query percent (c ∷ s) = decode_query (half (hex_value c)) s
decode_query (half high) (c ∷ s) = (high * 16 + hex_value c) ∷ decode_query plain s

hex_value-hex_digit : (n : ℕ) → n < 16 → hex_value (hex_digit n) ≡ n
hex_value-hex_digit n h = ground arith

module _ (c : ℕ) (s : Text) (byte : c < 256) where
  decode-kept : is_unreserved c ≡ true → decode_query plain (c ∷ s) ≡ c ∷ decode_query plain s
  unfolding decode_query
  decode-kept h = ground arith

  decode-escaped :
      decode_query plain (b'%' ∷ hex_digit (c / 16) ∷ hex_digit (c % 16) ∷ s)
      ≡ c ∷ decode_query plain s
  unfolding decode_query
  decode-escaped =
      let high = hex_value-hex_digit (c / 16) (omega arith) in
      let low = hex_value-hex_digit (c % 16) (omega arith) in
      ap (λ n. n ∷ decode_query plain s) (omega (arith, high, low))

  decode-space : b' ' ≡ c → decode_query plain (b'+' ∷ s) ≡ c ∷ decode_query plain s
  unfolding decode_query
  decode-space e = ap (λ n. n ∷ decode_query plain s) e

  decode-escape_byte : decode_query plain (escape_byte c ++ s) ≡ c ∷ decode_query plain s
  unfolding escape_byte
  decode-escape_byte = elim (Bool-cases (is_unreserved c)) [
    | inl u ↦ rw (u, escape_byte) (decode-kept u)
    | inr r ↦ elim (Bool-cases (c == b' ')) [
      | inl space ↦ rw (r, escape_byte) (rw space (decode-space (ground arith)))
      | inr other ↦ rw (r, escape_byte) (rw other decode-escaped)
    ]
  ]

-- The bytes of a value are read back from its escaped form by the decoding of a query.
pub decode_query-query_escape :
    (value : Text) → All (λ c. c < 256) value → decode_query plain (query_escape value) ≡ value
unfolding query_escape decode_query
decode_query-query_escape [] h = refl
decode_query-query_escape (c ∷ value) (b, h) =
    decode-escape_byte c (query_escape value) b
    ∙ ap (λ s. c ∷ s) (decode_query-query_escape value h)
