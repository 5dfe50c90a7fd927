-- ===== src/Weather/EventType.antt =====
-- src/weather/mapping/mod.rs and src/weather/events/mod.rs: the event types, the severities and a
-- detected event. An array indexed by `EventType::index` is a function of the type.
use awtrix_controller.Prelude.{
  Memᴰ, ℕ, ◌<◌, ◌≡◌, Bool, List, [], ◌∷◌, refl, arith, ◌==◌, if◌then◌else◌, length, Option, none,
  some, true,
}
use awtrix_controller.Prelude.Text.{Text}
use awtrix_controller.Instants.{Timestamp}

pub data EventType : Type 0 where
  thunderstorm freezing_precip frost_risk heavy_rain strong_gusts snow fog : EventType

-- `EventType::ALL`.
abbrev pub all_types : List EventType
all_types =
    thunderstorm ∷ freezing_precip ∷ frost_risk ∷ heavy_rain ∷ strong_gusts ∷ snow ∷ fog ∷ []

-- `EventType::index`.
abbrev pub index : EventType → ℕ
index thunderstorm = 0
index freezing_precip = 1
index frost_risk = 2
index heavy_rain = 3
index strong_gusts = 4
index snow = 5
index fog = 6

-- The derived `==`.
abbrev pub same_type : EventType → EventType → Bool
same_type a b = index a == index b

pub same_type→eq : (a b : EventType) → same_type a b ≡ true → a ≡ b
same_type→eq a b h = ground arith

pub same_type_refl : (a : EventType) → same_type a a ≡ true
same_type_refl thunderstorm = refl
same_type_refl _ = refl

-- Every index is one of the array's, and no two types share one.
pub index_in_array : (a : EventType) → index a < length all_types
index_in_array a = ground arith

-- Every type is in the array.
pub Memᴰ-all_types : (e : EventType) → Memᴰ e all_types
Memᴰ-all_types thunderstorm = Memᴰ.head refl
Memᴰ-all_types freezing_precip = Memᴰ.tail (Memᴰ.head refl)
Memᴰ-all_types frost_risk = Memᴰ.tail (Memᴰ.tail (Memᴰ.head refl))
Memᴰ-all_types heavy_rain = Memᴰ.tail (Memᴰ.tail (Memᴰ.tail (Memᴰ.head refl)))
Memᴰ-all_types strong_gusts = Memᴰ.tail (Memᴰ.tail (Memᴰ.tail (Memᴰ.tail (Memᴰ.head refl))))
Memᴰ-all_types snow = Memᴰ.tail (Memᴰ.tail (Memᴰ.tail (Memᴰ.tail (Memᴰ.tail (Memᴰ.head refl)))))
Memᴰ-all_types fog =
    Memᴰ.tail (Memᴰ.tail (Memᴰ.tail (Memᴰ.tail (Memᴰ.tail (Memᴰ.tail (Memᴰ.head refl))))))

pub data Severity : Type 0 where
  warning severe : Severity

-- `Severity::level`, in whose order the derived comparison goes.
abbrev pub level : Severity → ℕ
level warning = 1
level severe = 2

-- The derived order of `Option<Severity>`: `None` is least.
abbrev pub rank : Option Severity → ℕ
rank none = 0
rank (some s) = level s

-- `EventCandidate`.
pub record EventCandidate : Type 0 where
  pub event_type : EventType
  pub start_time : Timestamp
  pub severity : Severity
  pub fingerprint : Text

-- An array over the types with one entry written.
abbrev pub update {ℓ} : {A : Type ℓ} → (EventType → A) → EventType → A → EventType → A
update f e v e' = if same_type e e' then v else f e'
