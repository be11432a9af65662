-- ===== src/Topics/Free.antt =====
-- The position and the name that a topic takes when it joins the active topics of its team.
use Prim.Native.String.{String}
use project_dipstick.Base.{
  true, false, ◌≡◌, refl, ap, inl, inr, none, some, List, [], ◌∷◌, arith, All, any, Bool-cases,
}
use project_dipstick.Base.Int.{
  ℤ, pos, negsuc, lt_int, eq_int, is_negative, add_one, max_int, eq_int-lt_int, eq_int_sym,
  lt_int-add_one, lt_int_trans, lt_int_irrefl, lt_int_asym, lt_int_total, eq_int_sound,
}
use project_dipstick.Base.Pairs.{All-follows}
use project_dipstick.Topics.Defs.{JsText, TopicRow}
use project_dipstick.Topics.Names.{
  same_name, comes_before, better, best_conflict, find_active_name_conflict,
}
use project_dipstick.Topics.Changes.{or_max, max_order, position_after}

max_int-left : (a b : ℤ) → lt_int (max_int a b) a ≡ false
unfolding max_int
max_int-left a b = elim (Bool-cases (lt_int a b)) [
  | inl less ↦ rw (less) (lt_int_asym a b less)
  | inr more ↦ rw (more) (lt_int_irrefl a)
]

max_int-right : (a b : ℤ) → lt_int (max_int a b) b ≡ false
unfolding max_int
max_int-right a b = elim (Bool-cases (lt_int a b)) [
  | inl less ↦ rw (less) (lt_int_irrefl b)
  | inr more ↦ rw (more) more
]

or_max-upper :
    (a : ℤ) (ts : List TopicRow)
    → (lt_int (or_max a (max_order ts)) a ≡ false)
      × All (λ u. lt_int (or_max a (max_order ts)) u.display_order ≡ false) ts
unfolding or_max max_order
or_max-upper a [] = (lt_int_irrefl a, tt)
or_max-upper a (t ∷ ts) =
    let m = or_max t.display_order (max_order ts) in
    let inner = or_max-upper t.display_order ts in
    (
      max_int-left a m,
      (
        lt_int_trans t.display_order m (max_int a m) inner.0 (max_int-right a m),
        All-follows (λ u. lt_int m u.display_order ≡ false)
            (λ u. lt_int (max_int a m) u.display_order ≡ false) ts
            (λ u h. lt_int_trans u.display_order m (max_int a m) h (max_int-right a m)) inner.1,
      ),
    )

-- No row has the position behind the greatest one.
pub position_after-free :
    (x : ℤ) (ts : List TopicRow)
    → All (λ u. eq_int u.display_order (position_after x (max_order ts)) ≡ false) ts
unfolding position_after max_order
position_after-free x [] = tt
position_after-free x (t ∷ ts) =
    let m = or_max t.display_order (max_order ts) in
    let apart : (a : ℤ) → lt_int m a ≡ false → eq_int a (add_one m) ≡ false =
      λ a h. rw (eq_int_sym a (add_one m)) (eq_int-lt_int a (add_one m) (lt_int-add_one a m h)) in
    let upper = or_max-upper t.display_order ts in
    (
      apart t.display_order upper.0,
      All-follows (λ u. lt_int m u.display_order ≡ false)
          (λ u. eq_int u.display_order (add_one m) ≡ false) ts (λ u h. apart u.display_order h)
          upper.1,
    )

or_max-negative :
    (a : ℤ) (ts : List TopicRow)
    → is_negative a ≡ false
    → All (λ u. is_negative u.display_order ≡ false) ts
    → is_negative (or_max a (max_order ts)) ≡ false
unfolding or_max max_order max_int
or_max-negative a [] h hs = h
or_max-negative a (t ∷ ts) h (k, hs) =
    elim (Bool-cases (lt_int a (or_max t.display_order (max_order ts)))) [
      | inl less ↦ rw (less) (or_max-negative t.display_order ts k hs)
      | inr more ↦ rw (more) h
    ]

add_one-negative : (a : ℤ) → is_negative a ≡ false → is_negative (add_one a) ≡ false
unfolding add_one is_negative
add_one-negative (pos n) h = refl
add_one-negative (negsuc n) h = absurd (ground (arith, h))

-- Nor is that position negative, where no row has a negative one.
pub position_after-negative :
    (x : ℤ) (ts : List TopicRow)
    → is_negative (add_one x) ≡ false
    → All (λ u. is_negative u.display_order ≡ false) ts
    → is_negative (position_after x (max_order ts)) ≡ false
unfolding position_after max_order
position_after-negative x [] h hs = h
position_after-negative x (t ∷ ts) h (k, hs) =
    add_one-negative (or_max t.display_order (max_order ts))
      (or_max-negative t.display_order ts k hs)

best_conflict-some :
    (js : JsText) (name : String) (b : TopicRow) (ts : List TopicRow)
    → (c : TopicRow) × (best_conflict js name (some b) ts ≡ some c)
unfolding best_conflict better
best_conflict-some js name b [] = (b, refl)
best_conflict-some js name b (t ∷ ts) = elim (Bool-cases (same_name js t.content.name name)) [
  | inr other ↦ rw (other) (best_conflict-some js name b ts)
  | inl same ↦ elim (Bool-cases (comes_before t b)) [
    | inl before ↦ rw (same, before) (best_conflict-some js name t ts)
    | inr after ↦ rw (same, after) (best_conflict-some js name b ts)
  ]
]

-- Without a conflict, no row has the name.
pub find_active_name_conflict-none :
    (js : JsText) (ts : List TopicRow) (name : String)
    → find_active_name_conflict js ts name ≡ none
    → All (λ u. same_name js u.content.name name ≡ false) ts
unfolding find_active_name_conflict best_conflict better
find_active_name_conflict-none js [] name e = tt
find_active_name_conflict-none js (t ∷ ts) name e =
    elim (Bool-cases (same_name js t.content.name name)) [
      | inl same ↦
          let (c, found) = best_conflict-some js name t ts in
          absurd (ground (arith, e, found, same))
      | inr other ↦
          let rest : best_conflict js name none ts ≡ none = rw (other) at e in
          (other, find_active_name_conflict-none js ts name rest)
    ]

-- With one, some row has it.
pub find_active_name_conflict-some :
    (js : JsText) (ts : List TopicRow) (name : String)
    → any (λ u. same_name js u.content.name name) ts ≡ true
    → (c : TopicRow) × (find_active_name_conflict js ts name ≡ some c)
unfolding find_active_name_conflict best_conflict better
find_active_name_conflict-some js [] name e = absurd (ground (arith, e))
find_active_name_conflict-some js (t ∷ ts) name e =
    elim (Bool-cases (same_name js t.content.name name)) [
      | inl same ↦ rw (same) (best_conflict-some js name t ts)
      | inr other ↦
          let rest : any (λ u. same_name js u.content.name name) ts ≡ true = rw (other) at e in
          rw (other) (find_active_name_conflict-some js ts name rest)
    ]

pub find_active_name_conflict-missing :
    (js : JsText) (ts : List TopicRow) (name : String)
    → any (λ u. same_name js u.content.name name) ts ≡ false
    → find_active_name_conflict js ts name ≡ none
unfolding find_active_name_conflict best_conflict
find_active_name_conflict-missing js [] name e = refl
find_active_name_conflict-missing js (t ∷ ts) name e =
    elim (Bool-cases (same_name js t.content.name name)) [
      | inl same ↦ absurd (ground (arith, e, same))
      | inr other ↦
          let rest : any (λ u. same_name js u.content.name name) ts ≡ false = rw (other) at e in
          rw (other) (find_active_name_conflict-missing js ts name rest)
    ]

-- Every row stands before that position.
pub position_after-upper :
    (x : ℤ) (ts : List TopicRow)
    → All (λ u. lt_int (position_after x (max_order ts)) u.display_order ≡ false) ts
unfolding position_after max_order
position_after-upper x [] = tt
position_after-upper x (t ∷ ts) =
    let m = or_max t.display_order (max_order ts) in
    let below : (a : ℤ) → lt_int m a ≡ false → lt_int (add_one m) a ≡ false =
      λ a h. lt_int_asym a (add_one m) (lt_int-add_one a m h) in
    let upper = or_max-upper t.display_order ts in
    (
      below t.display_order upper.0,
      All-follows (λ u. lt_int m u.display_order ≡ false)
          (λ u. lt_int (add_one m) u.display_order ≡ false) ts (λ u h. below u.display_order h)
          upper.1,
    )

max_int-bound :
    (a b p : ℤ) → lt_int p a ≡ false → lt_int p b ≡ false → lt_int p (max_int a b) ≡ false
unfolding max_int
max_int-bound a b p h k = elim (Bool-cases (lt_int a b)) [
  | inl less ↦ rw (less) k
  | inr more ↦ rw (more) h
]

or_max-bound :
    (a p : ℤ) (ts : List TopicRow)
    → lt_int p a ≡ false
    → All (λ u. lt_int p u.display_order ≡ false) ts
    → lt_int p (or_max a (max_order ts)) ≡ false
unfolding or_max max_order
or_max-bound a p [] h hs = h
or_max-bound a p (t ∷ ts) h (k, ks) =
    max_int-bound a (or_max t.display_order (max_order ts)) p h
      (or_max-bound t.display_order p ts k ks)

max_int-top : (a b : ℤ) → lt_int a b ≡ false → max_int a b ≡ a
unfolding max_int
max_int-top a b h = rw (h) refl

or_max-top :
    (p : ℤ) (ts : List TopicRow)
    → All (λ u. lt_int p u.display_order ≡ false) ts
    → or_max p (max_order ts) ≡ p
unfolding or_max max_order
or_max-top p [] hs = refl
or_max-top p (t ∷ ts) (k, ks) =
    max_int-top p (or_max t.display_order (max_order ts)) (or_max-bound t.display_order p ts k ks)

max_int-later : (a b : ℤ) → lt_int a b ≡ true → max_int a b ≡ b
unfolding max_int
max_int-later a b h = rw (h) refl

-- The greatest position, when some row has it and none a greater one.
pub max_order-reached :
    (p : ℤ) (ts : List TopicRow)
    → All (λ u. lt_int p u.display_order ≡ false) ts
    → any (λ u. eq_int u.display_order p) ts ≡ true
    → max_order ts ≡ some p
unfolding or_max max_order
max_order-reached p [] hs e = absurd (ground (arith, e))
max_order-reached p (t ∷ ts) (h, hs) e = elim (Bool-cases (eq_int t.display_order p)) [
  | inl same ↦ rw (eq_int_sound t.display_order p same) (ap some (or_max-top p ts hs))
  | inr other ↦
      let rest : any (λ u. eq_int u.display_order p) ts ≡ true = rw (other) at e in
      let before = lt_int_total t.display_order p h other in
      rw (max_order-reached p ts hs rest) (ap some (max_int-later t.display_order p before))
]
