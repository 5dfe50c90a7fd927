-- ===== src/EnergySaving/Active.antt =====
-- src/energysaving/mod.rs: the dates whose windows decide whether an instant is active.
use awtrix_controller.Prelude.{
  suc, zero, ◌<◌, ◌≤◌, ◌≡◌, refl, sym, ap, ◌∙◌, ◌↔◌, inl, inr, ◌∷◌, true, Option, none, some, [],
  arith, ltb, cons_option, filter_map, Memᴰ, any-Memᴰ, Memᴰ-any, filter_map-Memᴰ, Memᴰ-filter_map,
  Bool-cases,
}
use mathlib.Core.Path.{subst}
use mathlib.Core.Option.{some-injective, none-ne-some}
use awtrix_controller.Instants.{Timestamp}
use awtrix_controller.Clock.{Date, Time, Calendar, yesterday, and_then, resolve_local}
use awtrix_controller.EnergySaving.{
  Window, resolve, non_empty, for_date, end_date, is_inside, is_active,
}

-- A time zone whose local date never goes back, and in which a local date and time resolves to an
-- instant of that date or later, before which it is that date or earlier. That is so where no clock
-- change crosses a midnight.
pub record IsOrdinary (cal : Calendar) : Type 0 where
  pub local_mono : (t t' : Timestamp) → t ≤ t' → cal.local_date t ≤ cal.local_date t'
  pub not_before :
      (d : Date) (time : Time) (i : Timestamp)
      → resolve_local cal d time ≡ some i
      → d ≤ cal.local_date i
  pub not_after :
      (d : Date) (time : Time) (i t : Timestamp)
      → resolve_local cal d time ≡ some i
      → t < i
      → cal.local_date t ≤ d

-- The dates that are looked at: today and the day before.
near_iff :
    (today d : Date)
    → Memᴰ d (cons_option (yesterday today) (today ∷ [])) ↔ ((d ≤ today) × (today ≤ suc d))
near_iff zero d = (
  λ m. elim m [ Memᴰ.head e ↦ (rw e (omega arith), omega arith) | Memᴰ.tail m' ↦ elim m' [ ] ],
  λ (l, _). Memᴰ.head (omega arith),
)
near_iff (suc n) d = (
  λ m. elim m [
    | Memᴰ.head e ↦ (rw e (omega arith), rw e (omega arith))
    | Memᴰ.tail m' ↦ elim m' [
      | Memᴰ.head e ↦ (rw e (omega arith), rw e (omega arith))
      | Memᴰ.tail m'' ↦ elim m'' [ ]
    ]
  ],
  λ (l, g). elim (Bool-cases (ltb d (suc n))) [
    | inl b ↦ Memᴰ.head (ground arith)
    | inr b ↦ Memᴰ.tail (Memᴰ.head (ground arith))
  ],
)

and_then_lem :
    {A B : Type 0} (o : Option A) (f : A → Option B) (b : B)
    → and_then o f ≡ some b
    → (a : A) × (o ≡ some a) × (f a ≡ some b)
and_then_lem none f b h = absurd (none-ne-some b h)
and_then_lem (some a) f b h = (a, refl, h)

pub non_empty_lem :
    (o : Option (Timestamp × Timestamp)) (s e : Timestamp)
    → non_empty o ≡ some (s, e)
    → (o ≡ some (s, e)) × (s < e)
non_empty_lem none s e h = absurd (none-ne-some (s, e) h)
non_empty_lem (some (s', e')) s e h = elim (Bool-cases (ltb s' e')) [
  | inl b ↦
      let p : (s', e') ≡ (s, e) = some-injective (s', e') (s, e) (rw b at h) in
      (ap some p, subst (λ q. q.0 < q.1) p (ground arith))
  | inr b ↦ absurd (none-ne-some (s, e) (rw b at h))
]

module _ (cal : Calendar) (w : Window) where
  -- The window of a date holds an instant.
  abbrev pub Holds : Date → Timestamp → Type 0
  Holds d t =
      (s : Timestamp) × (e : Timestamp) × (for_date cal w d ≡ some (s, e)) × (s ≤ t) × (t < e)

  pub is_active_iff :
      (t : Timestamp)
      → (is_active cal w t ≡ true)
        ↔ ((d : Date) × (d ≤ cal.local_date t) × (cal.local_date t ≤ suc d) × Holds d t)
  unfolding is_active
  is_active_iff t =
      let today = cal.local_date t in
      let dates = cons_option (yesterday today) (today ∷ []) in
      let windows = filter_map (for_date cal w) dates in
      (
        λ h.
            let ((s, e), m, i) = Memᴰ-any (is_inside t) windows h in
            let (d, n, f) = filter_map-Memᴰ (for_date cal w) (s, e) dates m in
            let (l, g) = (near_iff today d).0 n in (d, l, g, (s, e, f, ground arith, ground arith)),
        λ (d, l, g, (s, e, f, a, b)).
            any-Memᴰ (is_inside t) (s, e) windows
              (Memᴰ-filter_map (for_date cal w) d dates ((near_iff today d).1 (l, g)) f)
              (ground arith),
      )

  end_date_lem : (d d' : Date) → end_date cal w d ≡ some d' → d' ≤ suc d
  end_date_lem d d' h = ground arith

  -- The window of a date is resolved from that date and from an end date of at most a day later.
  pub for_date_lem :
      (d : Date) (s e : Timestamp)
      → for_date cal w d ≡ some (s, e)
      → (resolve_local cal d w.start ≡ some s)
        × ((d' : Date) × (d' ≤ suc d) × (resolve_local cal d' w.end ≡ some e))
        × (s < e)
  unfolding resolve
  for_date_lem d s e h =
      let (r, l) = non_empty_lem (resolve cal w d) s e h in
      let (s', found, r1) = and_then_lem (resolve_local cal d w.start) _ (s, e) r in
      let (d', next, r2) = and_then_lem (end_date cal w d) _ (s, e) r1 in
      let (e', found', r3) = and_then_lem (resolve_local cal d' w.end) _ (s, e) r2 in
      let p : (s', e') ≡ (s, e) = some-injective (s', e') (s, e) r3 in
      (found ∙ ap (λ q. some q.0) p, (d', end_date_lem d d' next, found' ∙ ap (λ q. some q.1) p), l)

  -- A later date's window does not start earlier.
  pub start_mono :
      (d d' : Date) (s e s' e' : Timestamp)
      → IsOrdinary cal
      → d ≤ d'
      → for_date cal w d ≡ some (s, e)
      → for_date cal w d' ≡ some (s', e')
      → s ≤ s'
  start_mono d d' s e s' e' ord le h h' = elim (Bool-cases (ltb s' s)) [
    | inr b ↦ ground arith
    | inl b ↦
        let (r, _, _) = for_date_lem d s e h in
        let (r', _, _) = for_date_lem d' s' e' h' in
        let up = ord.not_after d w.start s s' r (ground arith) in
        let down = ord.not_before d' w.start s' r' in
        let same : d ≡ d' = omega (arith, up, down) in
        let p : (s, e) ≡ (s', e') =
          some-injective (s, e) (s', e') (sym h ∙ ap (for_date cal w) same ∙ h') in
        ground (arith, ap (λ q. q.0) p)
  ]
