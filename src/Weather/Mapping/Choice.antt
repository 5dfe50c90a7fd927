-- ===== src/Weather/Mapping/Choice.antt =====
-- src/weather/mapping/mod.rs: `select_overlay` chooses the strongest overlay in its window, and
-- depends on which steps the forecast has, not on their order.
use awtrix_controller.Prelude.{
  ◌≤◌, ◌<◌, ◌≡◌, refl, sym, ap, ◌∙◌, ◌⊎◌, inl, inr, ◌↔◌, ◌&&◌, Bool, Option, none, some, List, [],
  ◌∷◌, Memᴰ, arith, ltb, leb, filter, filter_map, Memᴰ-filter, filter-Memᴰ, Memᴰ-filter_map,
  filter_map-Memᴰ, Bool-cases, Option-cases, if◌then◌else◌,
}
use awtrix_controller.Prelude.Int.{ℤ}
use awtrix_controller.Instants.{Timestamp, Instants}
use awtrix_controller.Model.Enums.{OverlayEffect, snow, rain, drizzle, storm, thunder, frost}
use mathlib.Core.Option.{some-injective, none-ne-some}
use mathlib.Core.Path.{subst}
use awtrix_controller.Weather.Wmo
use awtrix_controller.Weather.Forecast.{ForecastPoint}
use awtrix_controller.Weather.Mapping.{
  wmo_to_overlay, priority, stronger, strongest, overlay_of, overlay_horizon, select_overlay,
}

strongest-ge :
    (best : Option OverlayEffect) (cs : List OverlayEffect)
    → priority best ≤ priority (strongest best cs)
unfolding strongest stronger
strongest-ge best [] = omega arith
strongest-ge best (c ∷ cs) = ground (arith, strongest-ge (stronger best c) cs)

strongest-ge_mem :
    (best : Option OverlayEffect) (o : OverlayEffect) (cs : List OverlayEffect)
    → Memᴰ o cs
    → priority (some o) ≤ priority (strongest best cs)
unfolding strongest stronger
strongest-ge_mem best o [] m = elim m [ ]
strongest-ge_mem best o (c ∷ cs) (Memᴰ.head e) =
    ground (arith, strongest-ge (stronger best c) cs, ap (λ x. priority (some x)) e)
strongest-ge_mem best o (c ∷ cs) (Memᴰ.tail m) = strongest-ge_mem (stronger best c) o cs m

strongest-source :
    (best : Option OverlayEffect) (cs : List OverlayEffect)
    → (strongest best cs ≡ best) ⊎ ((o : OverlayEffect) × Memᴰ o cs × (strongest best cs ≡ some o))
unfolding strongest stronger
strongest-source best [] = inl refl
strongest-source best (c ∷ cs) = elim (Bool-cases (ltb (priority best) (priority (some c)))) [
  | inl e ↦ rw e (elim (strongest-source (some c) cs) [
    | inl kept ↦ inr (c, Memᴰ.head refl, kept)
    | inr (o, m, eq) ↦ inr (o, Memᴰ.tail m, eq)
  ])
  | inr e ↦ rw e (elim (strongest-source best cs) [
    | inl kept ↦ inl kept
    | inr (o, m, eq) ↦ inr (o, Memᴰ.tail m, eq)
  ])
]

abbrev Positive : Option OverlayEffect → Type 0
Positive r = (o : OverlayEffect) → r ≡ some o → 0 < priority (some o)

ladder :
    (b₁ b₂ b₃ b₄ b₅ b₆ : Bool)
    → Positive (
        if b₁
        then some drizzle
        else if b₂
        then some frost
        else if b₃
        then some rain
        else if b₄
        then some snow
        else if b₅
        then some storm
        else if b₆
        then some thunder
        else none)
unfolding priority
ladder b₁ b₂ b₃ b₄ b₅ b₆ o e = ground arith

-- An overlay of a WMO code is never `Clear` or unknown.
overlay_pos : (code : ℤ) → Positive (wmo_to_overlay code)
unfolding wmo_to_overlay
overlay_pos code =
    ladder (Wmo.is_drizzle code) (Wmo.is_freezing code) (Wmo.is_rain code) (Wmo.is_snow code)
      (Wmo.is_storm code) (Wmo.is_thunder code)

-- Among overlays that have a priority, the priority tells which.
priority-injective :
    (a b : OverlayEffect) → 0 < priority (some a) → priority (some a) ≡ priority (some b) → a ≡ b
unfolding priority
priority-injective a b h e = ground arith

no_room :
    (o : OverlayEffect) (r : Option OverlayEffect)
    → priority (some o) ≤ priority r
    → 0 < priority (some o)
    → r ≡ none
    → ⊥
unfolding priority
no_room o r le positive e = omega (arith, ap priority e)

module _ (time : Instants) {F : Type 0} (now : Timestamp) (minutes : ℤ) where
  -- The step is in the window, and its code has that overlay.
  abbrev pub Shows : ForecastPoint F → OverlayEffect → Type 0
  Shows p o = (now ≤ p.time) × (p.time < overlay_horizon time now minutes) × (overlay_of p ≡ some o)

  abbrev ahead : ForecastPoint F → Bool
  ahead p = leb now p.time && ltb p.time (overlay_horizon time now minutes)

  abbrev candidates : List (ForecastPoint F) → List OverlayEffect
  candidates points = filter_map overlay_of (filter ahead points)

  Memᴰ-candidates :
      (p : ForecastPoint F) (o : OverlayEffect) (points : List (ForecastPoint F))
      → Memᴰ p points
      → Shows p o
      → Memᴰ o (candidates points)
  Memᴰ-candidates p o points m (from, until, e) =
      Memᴰ-filter_map overlay_of p (filter ahead points)
        (Memᴰ-filter ahead p points m (ground arith)) e

  candidates-Memᴰ :
      (o : OverlayEffect) (points : List (ForecastPoint F))
      → Memᴰ o (candidates points)
      → (p : ForecastPoint F) × Memᴰ p points × Shows p o
  candidates-Memᴰ o points m =
      let (p, n, e) = filter_map-Memᴰ overlay_of o (filter ahead points) m in
      let (k, h) = filter-Memᴰ ahead p points n in (p, k, (ground arith, ground arith, e))

  overlay_of_pos :
      (p : ForecastPoint F) (o : OverlayEffect) → overlay_of p ≡ some o → 0 < priority (some o)
  overlay_of_pos p o e = elim (Option-cases p.weather_code) [
    | inl none_given ↦ absurd (none-ne-some o (rw none_given at e))
    | inr (code, given) ↦ overlay_pos code o (rw given at e)
  ]

  -- An overlay that is selected is shown by a step in `[now, horizon)`; and if any step there shows
  -- an overlay, one is selected, whose priority is at least that of the one shown. So none is
  -- selected only where no step shows any.
  pub select_overlay-strongest :
      (points : List (ForecastPoint F))
      → let selected = select_overlay time points now minutes in
        ((o : OverlayEffect)
          → selected ≡ some o
          → (p : ForecastPoint F) × Memᴰ p points × Shows p o)
        × ((p : ForecastPoint F) (o : OverlayEffect)
            → Memᴰ p points
            → Shows p o
            → (best : OverlayEffect) × (selected ≡ some best)
              × (priority (some o) ≤ priority (some best)))
  unfolding select_overlay
  select_overlay-strongest points = (
    λ o e. elim (strongest-source none (candidates points)) [
      | inl nothing ↦ absurd (none-ne-some o (sym nothing ∙ e))
      | inr (o', m, e') ↦
          candidates-Memᴰ o points
            (subst (λ x. Memᴰ x (candidates points)) (some-injective o' o (sym e' ∙ e)) m)
    ],
    λ p o m s.
        let above = strongest-ge_mem none o (candidates points) (Memᴰ-candidates p o points m s) in
        elim (strongest-source none (candidates points)) [
          | inl nothing ↦ absurd (no_room o _ above (overlay_of_pos p o s.2) nothing)
          | inr (best, _, e') ↦ (best, e', rw e' at above)
        ],
  )

  one_way :
      (xs ys : List (ForecastPoint F)) (a : OverlayEffect)
      → ((p : ForecastPoint F) → Memᴰ p xs → Memᴰ p ys)
      → select_overlay time xs now minutes ≡ some a
      → (b : OverlayEffect) × (select_overlay time ys now minutes ≡ some b)
        × (priority (some a) ≤ priority (some b))
        × (0 < priority (some a))
  one_way xs ys a inside e =
      let (p, m, s) = (select_overlay-strongest xs).0 a e in
      let (b, e', le) = (select_overlay-strongest ys).1 p a (inside p m) s in
      (b, e', le, overlay_of_pos p a s.2)

  -- The selected overlay depends only on which steps the forecast holds: two lists with the same
  -- members, in whatever order and however often, give the same overlay.
  pub select_overlay-same_members :
      (xs ys : List (ForecastPoint F))
      → ((p : ForecastPoint F) → Memᴰ p xs ↔ Memᴰ p ys)
      → select_overlay time xs now minutes ≡ select_overlay time ys now minutes
  select_overlay-same_members xs ys same_members = go _ _ refl refl
    where
      go :
          (r s : Option OverlayEffect)
          → select_overlay time xs now minutes ≡ r
          → select_overlay time ys now minutes ≡ s
          → r ≡ s
      go none none e f = refl
      go (some a) s e f =
          let (b, f', le, positive) = one_way xs ys a (λ p. (same_members p).0) e in
          let (a', e', le', _) = one_way ys xs b (λ p. (same_members p).1) f' in
          let aa = some-injective a' a (sym e' ∙ e) in
          sym (
            sym f
            ∙ f'
            ∙ ap some (
                sym (
                  priority-injective a b positive
                    (omega (arith, le, le', ap (λ x. priority (some x)) aa)))))
      go none (some b) e f =
          let (a, e', _, _) = one_way ys xs b (λ p. (same_members p).1) f in
          absurd (none-ne-some a (sym e ∙ e'))
