-- ===== src/ClientState/Ids.antt =====
-- src/clientstate/mod.rs: `connected_ids` is sorted, and lists the registered clients.
use awtrix_controller.Prelude.{
  ◌≡◌, refl, Bool, true, false, ◌||◌, List, [], ◌∷◌, ok, arith, any, is_some, inl, inr, Bool-cases,
}
use awtrix_controller.Prelude.Text.{Text, same}
use awtrix_controller.Prelude.Dict.{Dict, lookup, keys}
use awtrix_controller.ClientState.{
  ClientState, Registry, text_le, insert_sorted, sort, connected_ids,
}
use awtrix_controller.ClientState.Laws.{view}

text_le_total : (s t : Text) → text_le s t ≡ false → text_le t s ≡ true
unfolding text_le
text_le_total [] t h = absurd (cc)
text_le_total (x ∷ s) [] h = refl
text_le_total (x ∷ s) (y ∷ t) h = ground (arith, text_le_total s t)

-- Each text is at most the next.
abbrev pub IsSorted : List Text → Type 0
IsSorted [] = Unit
IsSorted (x ∷ []) = Unit
IsSorted (x ∷ y ∷ ks) = (text_le x y ≡ true) × IsSorted (y ∷ ks)

-- `k` may stand in front of the list.
abbrev Below : Text → List Text → Type 0
Below k [] = Unit
Below k (j ∷ ks) = text_le k j ≡ true

IsSorted-cons : (k : Text) (ks : List Text) → Below k ks → IsSorted ks → IsSorted (k ∷ ks)
IsSorted-cons k [] b h = tt
IsSorted-cons k (j ∷ ks) b h = (b, h)

IsSorted-tail : (k : Text) (ks : List Text) → IsSorted (k ∷ ks) → IsSorted ks × Below k ks
IsSorted-tail k [] h = (tt, tt)
IsSorted-tail k (j ∷ ks) h = (h.1, h.0)

Below-insert_sorted :
    (x k : Text) (ks : List Text) → Below x ks → text_le x k ≡ true → Below x (insert_sorted k ks)
unfolding insert_sorted
Below-insert_sorted x k [] b h = h
Below-insert_sorted x k (j ∷ ks) b h = elim (Bool-cases (text_le k j)) [
  | inl e ↦ rw e h
  | inr e ↦ rw e b
]

insert_sorted-IsSorted : (k : Text) (ks : List Text) → IsSorted ks → IsSorted (insert_sorted k ks)
unfolding insert_sorted
insert_sorted-IsSorted k [] h = tt
insert_sorted-IsSorted k (j ∷ ks) h = elim (Bool-cases (text_le k j)) [
  | inl e ↦ rw e (e, h)
  | inr e ↦
      let (h', b) = IsSorted-tail j ks h in
      rw e (
        IsSorted-cons j (insert_sorted k ks) (Below-insert_sorted j k ks b (text_le_total k j e))
          (insert_sorted-IsSorted k ks h'))
]

sort-IsSorted : (ks : List Text) → IsSorted (sort ks)
unfolding sort
sort-IsSorted [] = tt
sort-IsSorted (k ∷ ks) = insert_sorted-IsSorted k (sort ks) (sort-IsSorted ks)

-- Whether the list has the text.
abbrev pub has : Text → List Text → Bool
has j ks = any (λ k. same k j) ks

has-insert_sorted :
    (j k : Text) (ks : List Text) → has j (insert_sorted k ks) ≡ same k j || has j ks
unfolding insert_sorted
has-insert_sorted j k [] = refl
has-insert_sorted j k (i ∷ ks) = ground (arith, has-insert_sorted j k ks)

has-sort : (j : Text) (ks : List Text) → has j (sort ks) ≡ has j ks
unfolding sort
has-sort j [] = refl
has-sort j (k ∷ ks) = ground (arith, has-insert_sorted j k (sort ks), has-sort j ks)

has-keys : (j : Text) (m : Dict ClientState) → has j (keys m) ≡ is_some (lookup j m)
unfolding keys lookup
has-keys j [] = refl
has-keys j ((k, v) ∷ m) = ground (arith, has-keys j m)

-- On a sound lock `connected_ids` gives a sorted list that has exactly the registered clients.
pub connected_ids-IsSorted :
    (r : Registry)
    → r.clients.is_poisoned ≡ false
    → (ids : List Text) × (connected_ids r ≡ ok ids)
      × IsSorted ids
      × ((j : Text) → has j ids ≡ is_some (view r j))
unfolding connected_ids
connected_ids-IsSorted r free = (
  sort (keys r.clients.value),
  rw free,
  sort-IsSorted (keys r.clients.value),
  λ j. ground (arith, has-sort j (keys r.clients.value), has-keys j r.clients.value),
)
