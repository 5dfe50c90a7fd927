-- ===== src/Model/Stats.antt =====
-- src/model/stats.rs: the status a device publishes, and how it is decoded. The JSON reader
-- (serde_json) is outside the repository: its result on a payload is a `Json`, or a syntax error.
pub mod Ignored
use awtrix_controller.Prelude.{
  Bool, false, Option, none, some, List, [], ◌∷◌, Result, ok, err, if◌then◌else◌,
}
use awtrix_controller.Prelude.Int.{ℤ, pos}
use awtrix_controller.Prelude.Text.{Text, bytes, same}

pub record Stats : Type 0 where
  pub app : Text
  pub bat : ℤ
  pub bat_raw : ℤ
  pub bri : ℤ
  pub hum : ℤ
  pub indicator1 : Bool
  pub indicator2 : Bool
  pub indicator3 : Bool
  pub ip_address : Text
  pub ldr_raw : ℤ
  pub lux : ℤ
  pub matrix : Bool
  pub messages : ℤ
  pub ram : ℤ
  pub temp : ℤ
  pub device_type : ℤ
  pub uid : Text
  pub uptime : ℤ
  pub version : Text
  pub wifi_signal : ℤ

abbrev pub default : Stats
default = record {
  app = [];
  bat = pos 0;
  bat_raw = pos 0;
  bri = pos 0;
  hum = pos 0;
  indicator1 = false;
  indicator2 = false;
  indicator3 = false;
  ip_address = [];
  ldr_raw = pos 0;
  lux = pos 0;
  matrix = false;
  messages = pos 0;
  ram = pos 0;
  temp = pos 0;
  device_type = pos 0;
  uid = [];
  uptime = pos 0;
  version = [];
  wifi_signal = pos 0;
}

-- One value of an object as serde_json reads it into an `Option` of a string, an `i64` or a bool;
-- `other` is any other value, a number outside `i64` or an object, say.
pub data Value : Type 0 where
  null : Value
  text : Text → Value
  int : ℤ → Value
  boolean : Bool → Value
  other : Value

-- A payload: `null`, an object with its entries in the order of the document, or anything else.
pub data Json : Type 0 where
  null : Json
  object : List (Text × Value) → Json
  other : Json

pub data DecodeError : Type 0 where
  syntax wrong_type : DecodeError

-- `next_value::<Option<T>>` for each of the three types.
abbrev as_text : Value → Result DecodeError (Option Text)
as_text Value.null = ok none
as_text (text s) = ok (some s)
as_text _ = err wrong_type

abbrev as_int : Value → Result DecodeError (Option ℤ)
as_int Value.null = ok none
as_int (int n) = ok (some n)
as_int _ = err wrong_type

abbrev as_bool : Value → Result DecodeError (Option Bool)
as_bool Value.null = ok none
as_bool (boolean b) = ok (some b)
as_bool _ = err wrong_type

-- `replace_non_null`: the record with the field written, or as it was for a `null`.
abbrev replace_non_null :
    {T : Type 0} → Result DecodeError (Option T) → (T → Stats) → Stats → Result DecodeError Stats
replace_non_null (ok none) write s = ok s
replace_non_null (ok (some v)) write s = ok (write v)
replace_non_null (err e) write s = err e

-- The `match` on the lower-cased key in `visit_map`.
unfoldable pub decode_field : Text → Value → Stats → Result DecodeError Stats
unfolding same
decode_field key v s =
    if same key (bytes "app")
    then replace_non_null (as_text v) (λ x. record s { app = x }) s
    else if same key (bytes "bat")
    then replace_non_null (as_int v) (λ x. record s { bat = x }) s
    else if same key (bytes "bat_raw")
    then replace_non_null (as_int v) (λ x. record s { bat_raw = x }) s
    else if same key (bytes "bri")
    then replace_non_null (as_int v) (λ x. record s { bri = x }) s
    else if same key (bytes "hum")
    then replace_non_null (as_int v) (λ x. record s { hum = x }) s
    else if same key (bytes "indicator1")
    then replace_non_null (as_bool v) (λ x. record s { indicator1 = x }) s
    else if same key (bytes "indicator2")
    then replace_non_null (as_bool v) (λ x. record s { indicator2 = x }) s
    else if same key (bytes "indicator3")
    then replace_non_null (as_bool v) (λ x. record s { indicator3 = x }) s
    else if same key (bytes "ip_address")
    then replace_non_null (as_text v) (λ x. record s { ip_address = x }) s
    else if same key (bytes "ldr_raw")
    then replace_non_null (as_int v) (λ x. record s { ldr_raw = x }) s
    else if same key (bytes "lux")
    then replace_non_null (as_int v) (λ x. record s { lux = x }) s
    else if same key (bytes "matrix")
    then replace_non_null (as_bool v) (λ x. record s { matrix = x }) s
    else if same key (bytes "messages")
    then replace_non_null (as_int v) (λ x. record s { messages = x }) s
    else if same key (bytes "ram")
    then replace_non_null (as_int v) (λ x. record s { ram = x }) s
    else if same key (bytes "temp")
    then replace_non_null (as_int v) (λ x. record s { temp = x }) s
    else if same key (bytes "type")
    then replace_non_null (as_int v) (λ x. record s { device_type = x }) s
    else if same key (bytes "uid")
    then replace_non_null (as_text v) (λ x. record s { uid = x }) s
    else if same key (bytes "uptime")
    then replace_non_null (as_int v) (λ x. record s { uptime = x }) s
    else if same key (bytes "version")
    then replace_non_null (as_text v) (λ x. record s { version = x }) s
    else if same key (bytes "wifi_signal")
    then replace_non_null (as_int v) (λ x. record s { wifi_signal = x }) s
    else ok s

-- The parameters: serde_json's reader, and `str::to_lowercase`, which goes by Unicode's tables.
module _ (read_json : Text → Option Json) (to_lowercase : Text → Text) where
  -- The loop of `visit_map`.
  unfoldable pub visit_map : List (Text × Value) → Stats → Result DecodeError Stats
  visit_map [] s = ok s
  visit_map ((key, v) ∷ entries) s = elim (decode_field (to_lowercase key) v s) [
    | ok s' ↦ visit_map entries s'
    | err e ↦ err e
  ]

  -- `Stats::from_json`.
  unfoldable pub from_json : Text → Result DecodeError Stats
  unfolding visit_map decode_field
  from_json payload = elim (read_json payload) [
    | none ↦ err syntax
    | some Json.null ↦ ok default
    | some (object entries) ↦ visit_map entries default
    | some Json.other ↦ err wrong_type
  ]
