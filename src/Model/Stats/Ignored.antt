-- ===== src/Model/Stats/Ignored.antt =====
-- src/model/stats.rs: the entries of a payload that leave the stats as they are.
use awtrix_controller.Prelude.{
  ◌≡◌, refl, sym, ◌∙◌, ◌&&◌, ◌||◌, not, Bool, true, false, List, [], ◌∷◌, Option, arith, filter,
  any, Result, ok, err, if◌then◌else◌, Bool-cases, inl, inr,
}
use awtrix_controller.Prelude.Text.{Text, bytes, same}
use awtrix_controller.Model.Stats.{Stats, Value, Json, DecodeError, decode_field, visit_map}

-- Both branches of a conditional, and its second branch where its test and others fail.
either : {A : Type 0} (b : Bool) (x y r : A) → x ≡ r → y ≡ r → (if b then x else y) ≡ r
either true x y r h k = h
either false x y r h k = k

miss :
    {A : Type 0} (b rest : Bool) (x y r : A)
    → (b || rest) ≡ false
    → (rest ≡ false → y ≡ r)
    → (if b then x else y) ≡ r
miss true rest x y r h k = absurd (cc)
miss false rest x y r h k = k h

-- The keys that the firmware sends, in lower case.
abbrev pub keys : List Text
keys =
    bytes "app"
    ∷ bytes "bat"
    ∷ bytes "bat_raw"
    ∷ bytes "bri"
    ∷ bytes "hum"
    ∷ bytes "indicator1"
    ∷ bytes "indicator2"
    ∷ bytes "indicator3"
    ∷ bytes "ip_address"
    ∷ bytes "ldr_raw"
    ∷ bytes "lux"
    ∷ bytes "matrix"
    ∷ bytes "messages"
    ∷ bytes "ram"
    ∷ bytes "temp"
    ∷ bytes "type"
    ∷ bytes "uid"
    ∷ bytes "uptime"
    ∷ bytes "version"
    ∷ bytes "wifi_signal"
    ∷ []

abbrev pub is_known : Text → Bool
is_known key = any (same key) keys

decode_field-null : (key : Text) (s : Stats) → decode_field key Value.null s ≡ ok s
unfolding decode_field
decode_field-null key s = either (same key (bytes "app")) _ _ _ refl (
    either (same key (bytes "bat")) _ _ _ refl (
      either (same key (bytes "bat_raw")) _ _ _ refl (
        either (same key (bytes "bri")) _ _ _ refl (
          either (same key (bytes "hum")) _ _ _ refl (
            either (same key (bytes "indicator1")) _ _ _ refl (
              either (same key (bytes "indicator2")) _ _ _ refl (
                either (same key (bytes "indicator3")) _ _ _ refl (
                  either (same key (bytes "ip_address")) _ _ _ refl (
                    either (same key (bytes "ldr_raw")) _ _ _ refl (
                      either (same key (bytes "lux")) _ _ _ refl (
                        either (same key (bytes "matrix")) _ _ _ refl (
                          either (same key (bytes "messages")) _ _ _ refl (
                            either (same key (bytes "ram")) _ _ _ refl (
                              either (same key (bytes "temp")) _ _ _ refl (
                                either (same key (bytes "type")) _ _ _ refl (
                                  either (same key (bytes "uid")) _ _ _ refl (
                                    either (same key (bytes "uptime")) _ _ _ refl (
                                      either (same key (bytes "version")) _ _ _ refl (
                                        either (same key (bytes "wifi_signal")) _ _ _ refl
                                          (refl))))))))))))))))))))

decode_field-unknown :
    (key : Text) (v : Value) (s : Stats) → is_known key ≡ false → decode_field key v s ≡ ok s
unfolding decode_field
decode_field-unknown key v s h = miss (same key (bytes "app")) _ _ _ _ h (λ h0.
    miss (same key (bytes "bat")) _ _ _ _ h0 (λ h1.
      miss (same key (bytes "bat_raw")) _ _ _ _ h1 (λ h2.
        miss (same key (bytes "bri")) _ _ _ _ h2 (λ h3.
          miss (same key (bytes "hum")) _ _ _ _ h3 (λ h4.
            miss (same key (bytes "indicator1")) _ _ _ _ h4 (λ h5.
              miss (same key (bytes "indicator2")) _ _ _ _ h5 (λ h6.
                miss (same key (bytes "indicator3")) _ _ _ _ h6 (λ h7.
                  miss (same key (bytes "ip_address")) _ _ _ _ h7 (λ h8.
                    miss (same key (bytes "ldr_raw")) _ _ _ _ h8 (λ h9.
                      miss (same key (bytes "lux")) _ _ _ _ h9 (λ h10.
                        miss (same key (bytes "matrix")) _ _ _ _ h10 (λ h11.
                          miss (same key (bytes "messages")) _ _ _ _ h11 (λ h12.
                            miss (same key (bytes "ram")) _ _ _ _ h12 (λ h13.
                              miss (same key (bytes "temp")) _ _ _ _ h13 (λ h14.
                                miss (same key (bytes "type")) _ _ _ _ h14 (λ h15.
                                  miss (same key (bytes "uid")) _ _ _ _ h15 (λ h16.
                                    miss (same key (bytes "uptime")) _ _ _ _ h16 (λ h17.
                                      miss (same key (bytes "version")) _ _ _ _ h17 (λ h18.
                                        miss (same key (bytes "wifi_signal")) _ _ _ _ h18
                                          (λ h19. refl))))))))))))))))))))

abbrev pub is_null : Value → Bool
is_null Value.null = true
is_null _ = false

is_null_lem : (v : Value) → is_null v ≡ true → v ≡ Value.null
is_null_lem Value.null h = refl
is_null_lem (Value.text _) h = absurd (cc)
is_null_lem (Value.int _) h = absurd (cc)
is_null_lem (Value.boolean _) h = absurd (cc)
is_null_lem Value.other h = absurd (cc)

module _ (read_json : Text → Option Json) (to_lowercase : Text → Text) where
  -- A known key, in whatever case, with a value.
  abbrev pub is_significant : Text × Value → Bool
  is_significant (key, v) = is_known (to_lowercase key) && not (is_null v)

  insignificant :
      (key : Text) (v : Value) (s : Stats)
      → is_significant (key, v) ≡ false
      → decode_field (to_lowercase key) v s ≡ ok s
  insignificant key v s h = elim (Bool-cases (is_known (to_lowercase key))) [
    | inr unknown ↦ decode_field-unknown (to_lowercase key) v s unknown
    | inl known ↦
        let nothing : is_null v ≡ true = ground (arith, h, known) in
        rw (is_null_lem v nothing) (decode_field-null (to_lowercase key) s)
  ]

  visit_ok :
      (key : Text) (v : Value) (entries : List (Text × Value)) (s s' : Stats)
      → decode_field (to_lowercase key) v s ≡ ok s'
      → visit_map read_json to_lowercase ((key, v) ∷ entries) s
        ≡ visit_map read_json to_lowercase entries s'
  unfolding visit_map
  visit_ok key v entries s s' h = rw (h, visit_map) refl

  visit_err :
      (key : Text) (v : Value) (entries : List (Text × Value)) (s : Stats) (e : DecodeError)
      → decode_field (to_lowercase key) v s ≡ err e
      → visit_map read_json to_lowercase ((key, v) ∷ entries) s ≡ err e
  unfolding visit_map
  visit_err key v entries s e h = rw (h, visit_map) refl

  -- Entries whose key, in lower case, is none of the firmware's, and entries whose value is `null`,
  -- change nothing: the stats are what the other entries make of them, errors included.
  pub visit_map-filter :
      (entries : List (Text × Value)) (s : Stats)
      → visit_map read_json to_lowercase entries s
        ≡ visit_map read_json to_lowercase (filter is_significant entries) s
  visit_map-filter [] s = refl
  visit_map-filter ((key, v) ∷ entries) s = elim (Bool-cases (is_significant (key, v))) [
    | inr b ↦
        rw b (visit_ok key v entries s s (insignificant key v s b) ∙ visit_map-filter entries s)
    | inl b ↦ rw b (kept (decode_field (to_lowercase key) v s) (visit_map-filter entries) refl)
  ]
    where
      kept :
          (r : Result DecodeError Stats)
          → ((s' : Stats)
              → visit_map read_json to_lowercase entries s'
                ≡ visit_map read_json to_lowercase (filter is_significant entries) s')
          → decode_field (to_lowercase key) v s ≡ r
          → visit_map read_json to_lowercase ((key, v) ∷ entries) s
            ≡ visit_map read_json to_lowercase ((key, v) ∷ filter is_significant entries) s
      kept (ok s') ih h =
          visit_ok key v entries s s' h
          ∙ ih s'
          ∙ sym (visit_ok key v (filter is_significant entries) s s' h)
      kept (err e) ih h =
          visit_err key v entries s e h
          ∙ sym (visit_err key v (filter is_significant entries) s e h)
