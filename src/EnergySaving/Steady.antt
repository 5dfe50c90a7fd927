-- ===== src/EnergySaving/Steady.antt =====
-- src/energysaving/mod.rs: the state between the transitions.
use awtrix_controller.Prelude.{
  ℕ, suc, zero, ◌<◌, ◌≤◌, ◌≡◌, refl, sym, ap, ◌∙◌, ◌⊎◌, inl, inr, ◌∷◌, ◌++◌, true, false, Option,
  none, some, [], arith, ltb, if◌then◌else◌, Option-cases, Bool-cases, unwrap_or,
}
use mathlib.Core.Option.{some-injective, none-ne-some}
use awtrix_controller.Instants.{Timestamp}
use awtrix_controller.Clock.{Date, Calendar, yesterday, tomorrow}
use awtrix_controller.EnergySaving.{
  Window, EnergySaving, resolve, non_empty, for_date, boundary_after, is_active, search,
  next_transition, max_window_search_days, later, update, transition, differ, start,
}
use awtrix_controller.EnergySaving.Active.{
  IsOrdinary, is_active_iff, for_date_lem, start_mono, non_empty_lem,
}

-- What a window with no boundary ahead, and one with a boundary, say.
boundary_none :
    (now s e : Timestamp) (o : Option (Timestamp × Timestamp))
    → boundary_after now o ≡ none
    → non_empty o ≡ some (s, e)
    → e ≤ now
unfolding boundary_after
boundary_none now s e o h k =
    let (q, l) = non_empty_lem o s e k in
    let h' : boundary_after now (some (s, e)) ≡ none = ap (boundary_after now) (sym q) ∙ h in
    ground (arith, l, h')

boundary_some :
    (now b : Timestamp) (o : Option (Timestamp × Timestamp))
    → boundary_after now o ≡ some b
    → (s : Timestamp) × (e : Timestamp) × (non_empty o ≡ some (s, e))
      × (((now < s) × (s ≡ b)) ⊎ ((s ≤ now) × (now < e) × (e ≡ b)))
unfolding boundary_after
boundary_some now b none h = absurd (none-ne-some b h)
boundary_some now b (some (s, e)) h = elim (Bool-cases (ltb s e)) [
  | inr l ↦ absurd (none-ne-some b (rw l at h))
  | inl l ↦ elim (Bool-cases (ltb now s)) [
    | inl f ↦ (s, e, rw l refl, inl (ground arith, some-injective s b (rw (l, f) at h)))
    | inr f ↦ elim (Bool-cases (ltb now e)) [
      | inl g ↦ (
        s,
        e,
        rw l refl,
        inr (ground arith, ground arith, some-injective e b (rw (l, f, g) at h)),
      )
      | inr g ↦ absurd (none-ne-some b (rw (l, f, g) at h))
    ]
  ]
]

tomorrow_lem : (cal : Calendar) (d d' : Date) → tomorrow cal d ≡ some d' → d' ≡ suc d
tomorrow_lem cal d d' h = ground arith

module _ (cal : Calendar) (w : Window) (now : Timestamp) where
  -- The windows of the dates from one to before another have ended.
  abbrev Over : Date → Date → Type 0
  Over from until =
      (d : Date) (s e : Timestamp) → from ≤ d → d < until → for_date cal w d ≡ some (s, e) → e ≤ now

  search_here :
      (rounds : ℕ) (date : Date) (b : Timestamp)
      → boundary_after now (resolve cal w date) ≡ some b
      → search cal w now (suc rounds) date ≡ some b
  unfolding search
  search_here rounds date b q = rw (q, search) refl

  search_end :
      (rounds : ℕ) (date : Date)
      → boundary_after now (resolve cal w date) ≡ none
      → tomorrow cal date ≡ none
      → search cal w now (suc rounds) date ≡ none
  unfolding search
  search_end rounds date q t = rw (q, search) (rw t refl)

  search_next :
      (rounds : ℕ) (date date' : Date)
      → boundary_after now (resolve cal w date) ≡ none
      → tomorrow cal date ≡ some date'
      → search cal w now (suc rounds) date ≡ search cal w now rounds date'
  unfolding search
  search_next rounds date date' q t = rw (q, search) (rw t refl)

  search-Over :
      (rounds : ℕ) (from date : Date) (b : Timestamp)
      → from ≤ date
      → Over from date
      → search cal w now rounds date ≡ some b
      → (d : Date) × (from ≤ d) × Over from d × (boundary_after now (resolve cal w d) ≡ some b)
  unfolding search
  search-Over zero from date b le over h = absurd (none-ne-some b h)
  search-Over (suc rounds) from date b le over h =
      elim (Option-cases (boundary_after now (resolve cal w date))) [
        | inr (b', q) ↦ (date, le, over, q ∙ sym (search_here rounds date b' q) ∙ h)
        | inl q ↦ elim (Option-cases (tomorrow cal date)) [
          | inl t ↦ absurd (none-ne-some b (sym (search_end rounds date q t) ∙ h))
          | inr (date', t) ↦
              let next = tomorrow_lem cal date date' t in
              search-Over rounds from date' b (omega (arith, next))
                (λ d s e l g f. elim (Bool-cases (ltb d date)) [
                  | inl c ↦ over d s e l (ground arith) f
                  | inr c ↦
                      let same : d ≡ date = ground (arith, next) in
                      boundary_none now s e (resolve cal w date) q
                        (sym (ap (for_date cal w) same) ∙ f)
                ])
                (sym (search_next rounds date date' q t) ∙ h)
        ]
      ]

  -- From a boundary on, with the earlier windows over.
  module _ (ord : IsOrdinary cal) (from d : Date) (s e : Timestamp)
      (first : (t : Timestamp) → now ≤ t → (d' : Date) → cal.local_date t ≤ suc d' → from ≤ d')
      (over : Over from d) (window : for_date cal w d ≡ some (s, e)) where
    before_start : (t : Timestamp) → now ≤ t → t < s → is_active cal w t ≡ false
    before_start t a b = elim (Bool-cases (is_active cal w t)) [
      | inr off ↦ off
      | inl on ↦
          let (d', _, g, (s', e', f, l, m)) = (is_active_iff cal w t).0 on in
          elim (Bool-cases (ltb d' d)) [
            | inl c ↦
                let ended = over d' s' e' (first t a d' g) (ground arith) f in
                absurd (omega (arith, ended, a, m))
            | inr c ↦
                let mono = start_mono cal w d d' s e s' e' ord (ground arith) window f in
                absurd (omega (arith, mono, l, b))
          ]
    ]

    inside : (t : Timestamp) → s ≤ t → t < e → is_active cal w t ≡ true
    inside t a b =
        let (r, (d', l, r'), _) = for_date_lem cal w d s e window in
        let early = ord.not_before d w.start s r in
        let mono = ord.local_mono s t a in
        let late = ord.not_after d' w.end e t r' b in
        (is_active_iff cal w t).1
          (d, omega (arith, early, mono), omega (arith, late, l), (s, e, window, a, b))

first_date : (today d : Date) → today ≤ suc d → unwrap_or (yesterday today) today ≤ d
first_date zero d h = omega arith
first_date (suc n) d h = omega arith

-- In an ordinary zone (`IsOrdinary`), the state is the same from an instant until the transition that
-- follows it.
pub next_transition-is_active :
    (cal : Calendar) (w : Window) (now b t : Timestamp)
    → IsOrdinary cal
    → next_transition cal w now ≡ some b
    → now ≤ t
    → t < b
    → is_active cal w t ≡ is_active cal w now
unfolding next_transition
next_transition-is_active cal w now b t ord h a c =
    let today = cal.local_date now in
    let from = unwrap_or (yesterday today) today in
    let (d, _, over, q) =
      search-Over cal w now max_window_search_days from from b (omega arith)
        (λ d s e l g f. absurd (omega (arith, l, g))) h in
    let (s, e, window, side) = boundary_some now b (resolve cal w d) q in
    elim side [
      | inl (ahead, same) ↦
          before_start cal w now ord from d s e (first ord) over window t a (omega (arith, same, c))
          ∙ sym (
              before_start cal w now ord from d s e (first ord) over window now (omega arith) ahead)
      | inr (begun, until, same) ↦
          inside cal w now ord from d s e (first ord) over window t (omega (arith, begun, a))
            (omega (arith, same, c))
          ∙ sym (inside cal w now ord from d s e (first ord) over window now begun until)
    ]
  where
    first :
        IsOrdinary cal
        → (t : Timestamp) → now ≤ t
        → (d' : Date) → cal.local_date t ≤ suc d'
        → unwrap_or (yesterday (cal.local_date now)) (cal.local_date now) ≤ d'
    first ord t a d' g =
        let mono = ord.local_mono now t a in
        first_date (cal.local_date now) d' (omega (arith, mono, g))

later_cases : (a b : Timestamp) → (b ≤ later a b) × ((later a b ≡ a) ⊎ (later a b ≡ b))
later_cases a b = ground arith

transition_eq :
    (cal : Calendar) (es : EnergySaving) (clock_now due : Timestamp)
    → let active = is_active cal es.window (later clock_now due) in
      transition cal es clock_now due ≡ record es {
        active = active;
        called = if differ es.active active then es.called ++ active ∷ [] else es.called;
      }
unfolding transition update
transition_eq cal es clock_now due = ground arith

-- In an ordinary zone (`IsOrdinary`), a transition that fires before the next one is due leaves the
-- state that every instant from then until the next one has, however the clock reads meanwhile; a
-- controller started at such an instant has the same state; and the transition reports the state
-- exactly when it differs from the one before.
pub transition-is_active :
    (cal : Calendar) (es : EnergySaving) (clock_now due b t : Timestamp)
    → IsOrdinary cal
    → next_transition cal es.window due ≡ some b
    → later clock_now due ≤ t
    → t < b
    → let es' = transition cal es clock_now due in
      let active = is_active cal es.window t in
      (es'.active ≡ active)
      × (es'.active ≡ (start cal es t).0.active)
      × (es'.called ≡ (if differ es.active active then es.called ++ active ∷ [] else es.called))
unfolding start
transition-is_active cal es clock_now due b t ord h a c =
    let (from_due, _) = later_cases clock_now due in
    let at_t =
      next_transition-is_active cal es.window due b t ord h (omega (arith, from_due, a)) c in
    let at_fire =
      next_transition-is_active cal es.window due b (later clock_now due) ord h from_due
        (omega (arith, a, c)) in
    let same = at_fire ∙ sym at_t in
    rw (transition_eq cal es clock_now due) (rw same (refl, refl, refl))
