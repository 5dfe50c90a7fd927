-- ===== src/Weather/Events/Least.antt =====
-- src/weather/events/mod.rs: what `record_event` keeps of the hits of one type.
use awtrix_controller.Prelude.{
  ◌≡◌, refl, sym, ap, ◌∙◌, ◌≤◌, Option, none, some, List, [], ◌∷◌, Memᴰ, arith, ltb, leb, if_rule,
}
use mathlib.Core.Path.{subst}
use mathlib.Core.Option.{some-injective, none-ne-some}
use awtrix_controller.Instants.{Timestamp}
use awtrix_controller.Weather.EventType.{Severity, level}
use awtrix_controller.Weather.Events.{Detection, earlier, higher, merge}

-- The hits of a type, recorded from the left.
unfoldable pub merge_all : Option Detection → List Detection → Option Detection
merge_all slot [] = slot
merge_all slot (h ∷ hs) = merge_all (some (merge slot h.first h.severity)) hs

-- The detection starts with a hit, has the severity of a hit, and no hit is earlier or severer.
abbrev pub Summarises : List Detection → Detection → Type 0
Summarises hits d =
    ((h : Detection) × Memᴰ h hits × (h.first ≡ d.first))
    × ((h : Detection) × Memᴰ h hits × (h.severity ≡ d.severity))
    × ((h : Detection) → Memᴰ h hits → (d.first ≤ h.first) × (level h.severity ≤ level d.severity))

earlier_hit : (P : Timestamp → Type 0) (a b : Timestamp) → P a → P b → P (earlier a b)
earlier_hit P a b x y = if_rule P (leb a b) x (λ _. y)

higher_hit : (P : Severity → Type 0) (a b : Severity) → P a → P b → P (higher a b)
higher_hit P a b x y = if_rule P (ltb (level b) (level a)) x (λ _. y)

earlier_le : (a b : Timestamp) → (earlier a b ≤ a) × (earlier a b ≤ b)
earlier_le a b = (ground arith, ground arith)

le_higher : (a b : Severity) → (level a ≤ level (higher a b)) × (level b ≤ level (higher a b))
le_higher a b = (ground arith, ground arith)

-- A detection that has recorded one more hit stands for both.
module _ (d h : Detection) (hs : List Detection) where
  abbrev both : Detection
  both = record { first = earlier d.first h.first; severity = higher d.severity h.severity }

  first-Memᴰ :
      (a : Detection)
      → Memᴰ a (both ∷ hs)
      → (x : Detection) × Memᴰ x (d ∷ h ∷ hs) × (x.first ≡ a.first)
  first-Memᴰ a (Memᴰ.tail m) = (a, Memᴰ.tail (Memᴰ.tail m), refl)
  first-Memᴰ a (Memᴰ.head e) =
      let P : Timestamp → Type 0 = λ t. (x : Detection) × Memᴰ x (d ∷ h ∷ hs) × (x.first ≡ t) in
      subst P (sym (ap (λ y. y.first) e)) (
        earlier_hit P d.first h.first (d, Memᴰ.head refl, refl)
          (h, Memᴰ.tail (Memᴰ.head refl), refl))

  severity-Memᴰ :
      (a : Detection)
      → Memᴰ a (both ∷ hs)
      → (x : Detection) × Memᴰ x (d ∷ h ∷ hs) × (x.severity ≡ a.severity)
  severity-Memᴰ a (Memᴰ.tail m) = (a, Memᴰ.tail (Memᴰ.tail m), refl)
  severity-Memᴰ a (Memᴰ.head e) =
      let P : Severity → Type 0 = λ t. (x : Detection) × Memᴰ x (d ∷ h ∷ hs) × (x.severity ≡ t) in
      subst P (sym (ap (λ y. y.severity) e)) (
        higher_hit P d.severity h.severity (d, Memᴰ.head refl, refl)
          (h, Memᴰ.tail (Memᴰ.head refl), refl))

  bounds_both :
      (d' : Detection)
      → ((x : Detection)
          → Memᴰ x (both ∷ hs)
          → (d'.first ≤ x.first) × (level x.severity ≤ level d'.severity))
      → (x : Detection) → Memᴰ x (d ∷ h ∷ hs)
      → (d'.first ≤ x.first) × (level x.severity ≤ level d'.severity)
  bounds_both d' le x (Memᴰ.head e) =
      let (f, l) = le both (Memᴰ.head refl) in
      let (t, _) = earlier_le d.first h.first in
      let (v, _) = le_higher d.severity h.severity in
      (rw e (omega (arith, f, t)), rw e (omega (arith, l, v)))
  bounds_both d' le x (Memᴰ.tail (Memᴰ.head e)) =
      let (f, l) = le both (Memᴰ.head refl) in
      let (_, t) = earlier_le d.first h.first in
      let (_, v) = le_higher d.severity h.severity in
      (rw e (omega (arith, f, t)), rw e (omega (arith, l, v)))
  bounds_both d' le x (Memᴰ.tail (Memᴰ.tail m)) = le x (Memᴰ.tail m)

merge_all-some :
    (d : Detection) (hs : List Detection)
    → (d' : Detection) × (merge_all (some d) hs ≡ some d') × Summarises (d ∷ hs) d'
unfolding merge_all merge
merge_all-some d [] = (
  d,
  refl,
  (
    (d, Memᴰ.head refl, refl),
    (d, Memᴰ.head refl, refl),
    λ x m. elim m [
      | Memᴰ.head e ↦ (rw e (omega arith), rw e (omega arith))
      | Memᴰ.tail m' ↦ elim m' [ ]
    ],
  ),
)
merge_all-some d (h ∷ hs) =
    let (d', e, ((a, m, p), (b, n, q), le)) = merge_all-some (both d h hs) hs in
    let (x, k, f) = first-Memᴰ d h hs a m in
    let (y, l, g) = severity-Memᴰ d h hs b n in
    (d', e, ((x, k, f ∙ p), (y, l, g ∙ q), bounds_both d h hs d' le))

-- An empty slot that has recorded hits summarises them, and stays empty when there are none.
pub merge_all-Summarises :
    (hs : List Detection) (d : Detection) → merge_all none hs ≡ some d → Summarises hs d
unfolding merge_all merge
merge_all-Summarises [] d e = absurd (none-ne-some d e)
merge_all-Summarises (h ∷ hs) d e =
    let (d', e', s) = merge_all-some h hs in
    subst (Summarises (h ∷ hs)) (some-injective d' d (sym e' ∙ e)) s

pub merge_all_found :
    (hs : List Detection) (h : Detection)
    → Memᴰ h hs
    → (d : Detection) × (merge_all none hs ≡ some d)
unfolding merge_all merge
merge_all_found [] h m = elim m [ ]
merge_all_found (h' ∷ hs) h m = let (d, e, _) = merge_all-some h' hs in (d, e)
