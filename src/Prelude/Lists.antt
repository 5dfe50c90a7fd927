-- ===== src/Prelude/Lists.antt =====
-- Lists measured by native numbers and filtered by Boolean tests, as the source's iterators are.
use Prim.Native.Nat.{ℕ, suc, ◌+◌}
use mathlib.Core.Path.{◌≡◌, refl, ap, sym, ◌∙◌}
use mathlib.Core.Logic.{◌⊎◌, inl, inr}
use mathlib.Core.Bool.{Bool, true, false, ◌&&◌, ◌||◌}
use mathlib.Core.List.{List, [], ◌∷◌, ◌++◌, map, Memᴰ}
use mathlib.Core.Option.{Option, none, some, some-injective, none-ne-some}
use native.Mathlib.Omega.{arith}
use awtrix_controller.Prelude.Tests.{if◌then◌else◌, Bool-cases}

module _ {ℓ} {A : Type ℓ} where
  abbrev pub length : List A → ℕ
  length [] = 0
  length (x ∷ xs) = suc (length xs)

  -- `iter().all` and `iter().any`.
  abbrev pub all : (A → Bool) → List A → Bool
  all p [] = true
  all p (x ∷ xs) = p x && all p xs

  abbrev pub any : (A → Bool) → List A → Bool
  any p [] = false
  any p (x ∷ xs) = p x || any p xs

  -- `iter().filter`.
  abbrev pub filter : (A → Bool) → List A → List A
  filter p [] = []
  filter p (x ∷ xs) = let rest = filter p xs in if p x then x ∷ rest else rest

  -- `iter().find`: the first item that passes.
  abbrev pub find : (A → Bool) → List A → Option A
  find p [] = none
  find p (x ∷ xs) = let rest = find p xs in if p x then some x else rest

  -- What `Option` adds to the front of a list.
  abbrev pub cons_option : Option A → List A → List A
  cons_option none xs = xs
  cons_option (some x) xs = x ∷ xs

  pub cons_option-append :
      (o : Option A) (xs ys : List A) → cons_option o xs ++ ys ≡ cons_option o (xs ++ ys)
  cons_option-append none xs ys = refl
  cons_option-append (some x) xs ys = refl

  -- A search finds an item of the list that passes.
  pub find_lem :
      (p : A → Bool) (xs : List A) (x : A) → find p xs ≡ some x → Memᴰ x xs × (p x ≡ true)
  find_lem p [] x e = absurd (none-ne-some x e)
  find_lem p (y ∷ ys) x e = elim (Bool-cases (p y)) [
    | inl h ↦
        let same = some-injective y x (rw h at e) in (Memᴰ.head (sym same), ap p (sym same) ∙ h)
    | inr h ↦ let (m, q) = find_lem p ys x (rw h at e) in (Memᴰ.tail m, q)
  ]

  pub length-append : (xs ys : List A) → length (xs ++ ys) ≡ length xs + length ys
  length-append [] ys = omega arith
  length-append (x ∷ xs) ys = omega (arith, length-append xs ys)

-- `iter().filter_map`.
abbrev pub filter_map {ℓ κ} : {A : Type ℓ} {B : Type κ} → (A → Option B) → List A → List B
filter_map f [] = []
filter_map f (x ∷ xs) = cons_option (f x) (filter_map f xs)

abbrev pub All {ℓ κ} : {A : Type ℓ} → (A → Type κ) → List A → Type κ
All P [] = Unit
All P (x ∷ xs) = P x × All P xs

module _ {ℓ} {A : Type ℓ} (p : A → Bool) where
  pub any-Memᴰ : (x : A) (xs : List A) → Memᴰ x xs → p x ≡ true → any p xs ≡ true
  any-Memᴰ x [] m h = elim m [ ]
  any-Memᴰ x (y ∷ ys) (Memᴰ.head e) h = ground (arith, ap p e)
  any-Memᴰ x (y ∷ ys) (Memᴰ.tail m) h = ground (arith, any-Memᴰ x ys m h)

  pub Memᴰ-any : (xs : List A) → any p xs ≡ true → (x : A) × Memᴰ x xs × (p x ≡ true)
  Memᴰ-any [] h = absurd (cc)
  Memᴰ-any (y ∷ ys) h = elim (Bool-cases (p y)) [
    | inl e ↦ (y, Memᴰ.head refl, e)
    | inr e ↦ let (x, m, q) = Memᴰ-any ys (ground arith) in (x, Memᴰ.tail m, q)
  ]

  pub all-Memᴰ : (x : A) (xs : List A) → Memᴰ x xs → all p xs ≡ true → p x ≡ true
  all-Memᴰ x [] m h = elim m [ ]
  all-Memᴰ x (y ∷ ys) (Memᴰ.head e) h = ground (arith, ap p e)
  all-Memᴰ x (y ∷ ys) (Memᴰ.tail m) h = all-Memᴰ x ys m (ground arith)

-- Membership in a filtered list, both ways.
module _ {ℓ} {A : Type ℓ} where
  cons_if-Memᴰ :
      (x : A) (b : Bool) (y : A) (ys : List A)
      → Memᴰ x (if b then y ∷ ys else ys)
      → ((x ≡ y) × (b ≡ true)) ⊎ Memᴰ x ys
  cons_if-Memᴰ x true y ys (Memᴰ.head e) = inl (e, refl)
  cons_if-Memᴰ x true y ys (Memᴰ.tail m) = inr m
  cons_if-Memᴰ x false y ys m = inr m

  cons_option-Memᴰ :
      (x : A) (o : Option A) (ys : List A) → Memᴰ x (cons_option o ys) → (o ≡ some x) ⊎ Memᴰ x ys
  cons_option-Memᴰ x none ys m = inr m
  cons_option-Memᴰ x (some y) ys (Memᴰ.head e) = inl (ap some (sym e))
  cons_option-Memᴰ x (some y) ys (Memᴰ.tail m) = inr m

module _ {ℓ} {A : Type ℓ} (p : A → Bool) where
  pub Memᴰ-filter : (x : A) (xs : List A) → Memᴰ x xs → p x ≡ true → Memᴰ x (filter p xs)
  Memᴰ-filter x [] m h = elim m [ ]
  Memᴰ-filter x (y ∷ ys) (Memᴰ.head e) h = rw (sym (ap p e) ∙ h) (Memᴰ.head e)
  Memᴰ-filter x (y ∷ ys) (Memᴰ.tail m) h = elim (Bool-cases (p y)) [
    | inl e ↦ rw e (Memᴰ.tail (Memᴰ-filter x ys m h))
    | inr e ↦ rw e (Memᴰ-filter x ys m h)
  ]

  pub filter-Memᴰ : (x : A) (xs : List A) → Memᴰ x (filter p xs) → Memᴰ x xs × (p x ≡ true)
  filter-Memᴰ x [] m = elim m [ ]
  filter-Memᴰ x (y ∷ ys) m = elim (cons_if-Memᴰ x (p y) y (filter p ys) m) [
    | inl (e, h) ↦ (Memᴰ.head e, ap p e ∙ h)
    | inr m' ↦ let (n, h) = filter-Memᴰ x ys m' in (Memᴰ.tail n, h)
  ]

module _ {ℓ κ} {A : Type ℓ} {B : Type κ} (f : A → Option B) where
  pub Memᴰ-filter_map :
      (x : A) {y : B} (xs : List A) → Memᴰ x xs → f x ≡ some y → Memᴰ y (filter_map f xs)
  Memᴰ-filter_map x [] m h = elim m [ ]
  Memᴰ-filter_map x (z ∷ zs) (Memᴰ.head e) h = rw (sym (ap f e) ∙ h) (Memᴰ.head refl)
  Memᴰ-filter_map x (z ∷ zs) (Memᴰ.tail m) h = later (f z) (Memᴰ-filter_map x zs m h)
    where
      later : (o : Option B) {y : B} {ys : List B} → Memᴰ y ys → Memᴰ y (cons_option o ys)
      later none m = m
      later (some _) m = Memᴰ.tail m

  pub filter_map-Memᴰ :
      (y : B) (xs : List A) → Memᴰ y (filter_map f xs) → (x : A) × Memᴰ x xs × (f x ≡ some y)
  filter_map-Memᴰ y [] m = elim m [ ]
  filter_map-Memᴰ y (z ∷ zs) m = elim (cons_option-Memᴰ y (f z) (filter_map f zs) m) [
    | inl e ↦ (z, Memᴰ.head refl, e)
    | inr m' ↦ let (x, n, h) = filter_map-Memᴰ y zs m' in (x, Memᴰ.tail n, h)
  ]

-- Membership in a mapped list, both ways.
module _ {ℓ κ} {A : Type ℓ} {B : Type κ} (f : A → B) where
  pub Memᴰ-map : (x : A) (xs : List A) → Memᴰ x xs → Memᴰ (f x) (map f xs)
  Memᴰ-map x [] m = elim m [ ]
  Memᴰ-map x (y ∷ ys) (Memᴰ.head e) = Memᴰ.head (ap f e)
  Memᴰ-map x (y ∷ ys) (Memᴰ.tail m) = Memᴰ.tail (Memᴰ-map x ys m)

  pub map-Memᴰ : (y : B) (xs : List A) → Memᴰ y (map f xs) → (x : A) × Memᴰ x xs × (y ≡ f x)
  map-Memᴰ y [] m = elim m [ ]
  map-Memᴰ y (z ∷ zs) (Memᴰ.head e) = (z, Memᴰ.head refl, e)
  map-Memᴰ y (z ∷ zs) (Memᴰ.tail m) = let (x, n, e) = map-Memᴰ y zs m in (x, Memᴰ.tail n, e)
