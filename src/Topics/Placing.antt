-- ===== src/Topics/Placing.antt =====
-- The two phases of PUT topics/order on a table that keeps its rules: neither meets the unique
-- index, and each active topic of the team ends at the place of its id.

use project_dipstick.Base.{
  ℕ, zero, suc, Bool, true, false, ◌≡◌, refl, ap, ◌∙◌, inl, inr, ◌⊎◌, some, List, [], ◌∷◌, arith,
  ◌==◌, ==_iff, if◌then◌else◌, All, Bool-cases, Option-cases, any, update_rows, map_get,
}
use project_dipstick.Base.Int.{ℤ, pos, negsuc, negate, is_negative, eq_int, eq_int-is_negative}
use project_dipstick.Base.Pairs.{Pairwise, All-follows, All-both}
use project_dipstick.Topics.Defs.{TopicRow, active_in}
use project_dipstick.Topics.Reorder.{
  shares_position, update_checked, in_order, set_negative, place_below, is_set_below, set_positive,
  with_ordinality, is_listed,
}
use project_dipstick.Topics.Tidy.{IsCounted}
use project_dipstick.Topics.Reordering.{first_written, second_written}
use project_dipstick.Topics.Ids.{with_ordinality-range, with_ordinality-injective}

pub any-All :
    (q : TopicRow → Bool) (xs : List TopicRow) → All (λ x. q x ≡ false) xs → any q xs ≡ false
any-All q [] a = refl
any-All q (x ∷ xs) (a, rest) = rw (a) (any-All q xs rest)

-- What an UPDATE may write at x and y, y behind x: neither row meets the other on its way.
abbrev pub PassEachOther : (TopicRow → Bool) → (TopicRow → TopicRow) → TopicRow → TopicRow → Type 0
PassEachOther p f x y =
    (p x ≡ true → shares_position (f x) y ≡ false)
    × (p y ≡ true → shares_position (f y) (if p x then f x else x) ≡ false)

abbrev pub Passes : (TopicRow → Bool) → (TopicRow → TopicRow) → List TopicRow → TopicRow → Type 0
Passes p f done x = p x ≡ true → All (λ d. shares_position (f x) d ≡ false) done

pub update_checked-succeeds :
    (p : TopicRow → Bool) (f : TopicRow → TopicRow) (done rows : List TopicRow)
    → All (Passes p f done) rows
    → Pairwise (PassEachOther p f) rows
    → update_checked p f done rows ≡ some (update_rows p f rows)
unfolding update_checked update_rows
update_checked-succeeds p f done [] a b = refl
update_checked-succeeds p f done (t ∷ ts) (a, rest) (b, bs) =
    let u = if p t then f t else t in
    let next =
      update_checked-succeeds p f (u ∷ done) ts
        (All-follows (λ x. PassEachOther p f t x × Passes p f done x) (Passes p f (u ∷ done)) ts
          (λ x h e. (h.0.1 e, h.1 e)) (All-both (PassEachOther p f t) (Passes p f done) ts b rest))
        bs in
    elim (Bool-cases (p t)) [
      | inr miss ↦ ground (arith, miss, next)
      | inl hit ↦
          let behind = any-All (shares_position (f t)) done (a hit) in
          let ahead = any-All (shares_position (f t)) ts (
            All-follows (PassEachOther p f t) (λ x. shares_position (f t) x ≡ false) ts
              (λ x h. h.0 hit) b) in
          ground (arith, hit, behind, ahead, next)
    ]

-- Each active topic of the team is listed.
abbrev pub IsListed : ℕ → List (ℕ × ℕ) → TopicRow → Type 0
IsListed team v x = active_in team x ≡ true → is_listed (map_get x.id v) ≡ true

-- A row's place: none outside of the active topics of the team, a number from 1 on inside.
abbrev pub Place : ℕ → List (ℕ × ℕ) → TopicRow → Type 0
Place team v x =
    (active_in team x ≡ false)
    ⊎ ((n : ℕ) × (map_get x.id v ≡ some (suc n)) × (active_in team x ≡ true))

pub Place-of :
    (team : ℕ) (order : List ℕ) (x : TopicRow)
    → IsListed team (with_ordinality 1 order) x
    → Place team (with_ordinality 1 order) x
Place-of team order x h = elim (Bool-cases (active_in team x)) [
  | inr out ↦ inl out
  | inl inside ↦ elim (Option-cases (map_get x.id (with_ordinality 1 order))) [
    | inl missing ↦ absurd (ground (arith, h inside, missing))
    | inr (zero, found) ↦ absurd (omega (arith, with_ordinality-range 1 order x.id 0 found))
    | inr (suc n, found) ↦ inr (n, found, inside)
  ]
]

pub first_written-out :
    (team : ℕ) (v : List (ℕ × ℕ)) (x : TopicRow)
    → active_in team x ≡ false
    → first_written team v x ≡ x
unfolding in_order
first_written-out team v x out = ground (arith, out)

pub in_order-place :
    (team n : ℕ) (v : List (ℕ × ℕ)) (x : TopicRow)
    → map_get x.id v ≡ some (suc n)
    → active_in team x ≡ true
    → (in_order team v x ≡ true) × (set_negative v x ≡ record x { display_order = negsuc n })
unfolding in_order set_negative place_below negate
in_order-place team n v x found inside = (rw (found, inside) refl, rw (found) refl)

abbrev pub at : ℤ → TopicRow → TopicRow
at k x = record x { display_order = k }

pub first_written-in :
    (team n : ℕ) (v : List (ℕ × ℕ)) (x : TopicRow)
    → map_get x.id v ≡ some (suc n)
    → active_in team x ≡ true
    → first_written team v x ≡ at (negsuc n) x
first_written-in team n v x found inside =
    rw ((in_order-place team n v x found inside).0) ((in_order-place team n v x found inside).1)

pub second_written-in :
    (team n : ℕ) (x : TopicRow)
    → active_in team x ≡ true
    → (is_set_below team (at (negsuc n) x) ≡ true)
      × (second_written team (at (negsuc n) x) ≡ at (pos (suc n)) x)
unfolding is_set_below set_positive negate is_negative
second_written-in team n x inside = (rw (inside) refl, rw (inside) refl)

-- A topic of another team, or an archived one, is in nobody's way.
apart-out :
    (team : ℕ) (x y : TopicRow)
    → active_in team x ≡ true
    → active_in team y ≡ false
    → shares_position x y ≡ false
unfolding shares_position
apart-out team x y inside out = ground (arith, inside, out)

apart-at :
    (x y : TopicRow) → eq_int x.display_order y.display_order ≡ false → shares_position x y ≡ false
unfolding shares_position
apart-at x y e = ground (arith, e)

other-place :
    (order : List ℕ) (x y : TopicRow) (n m : ℕ)
    → (x.id == y.id) ≡ false
    → map_get x.id (with_ordinality 1 order) ≡ some (suc n)
    → map_get y.id (with_ordinality 1 order) ≡ some (suc m)
    → (m == n) ≡ false
other-place order x y n m other at_x at_y = elim (Bool-cases (m == n)) [
  | inr apart ↦ apart
  | inl same ↦
      let at_y' : map_get y.id (with_ordinality 1 order) ≡ some (suc n) =
        at_y ∙ ap (λ k. some (suc k)) ((==_iff m n).0 same) in
      absurd (ground (arith, other, with_ordinality-injective 1 order x.id y.id (suc n) at_x at_y'))
]

pub first-passes :
    (team : ℕ) (order : List ℕ) (x y : TopicRow)
    → (x.id == y.id) ≡ false
    → IsCounted y
    → Place team (with_ordinality 1 order) x
    → Place team (with_ordinality 1 order) y
    → PassEachOther
        (in_order team (with_ordinality 1 order))
        (set_negative (with_ordinality 1 order))
        x
        y
unfolding in_order eq_int is_negative
first-passes team order x y other counted (inl out) (inl out') =
    (λ e. absurd (ground (arith, e, out)), λ e. absurd (ground (arith, e, out')))
first-passes team order x y other counted (inl out) (inr (m, at_y, inside')) = (
  λ e. absurd (ground (arith, e, out)),
  λ _.
      let v = with_ordinality 1 order in
      let placed = in_order-place team m v y at_y inside' in
      rw (first_written-out team v x out, placed.1)
        (apart-out team (at (negsuc m) y) x inside' out),
)
first-passes team order x y other counted (inr (n, at_x, inside)) (inl out') = (
  λ _.
      let v = with_ordinality 1 order in
      rw ((in_order-place team n v x at_x inside).1)
        (apart-out team (at (negsuc n) x) y inside out'),
  λ e. absurd (ground (arith, e, out')),
)
first-passes team order x y other counted (inr (n, at_x, inside)) (inr (m, at_y, inside')) =
    let v = with_ordinality 1 order in
    let placed_x = (in_order-place team n v x at_x inside).1 in
    let placed_y = (in_order-place team m v y at_y inside').1 in
    (
      λ _. rw (placed_x) (
          apart-at (at (negsuc n) x) y (
            eq_int-is_negative (negsuc n) y.display_order refl
              (counted (ground (arith, inside'))))),
      λ _.
          rw (first_written-in team n v x at_x inside, placed_y)
            (apart-at (at (negsuc m) y) (at (negsuc n) x)
              (other-place order x y n m other at_x at_y)),
    )

pub second-passes :
    (team : ℕ) (order : List ℕ) (x y : TopicRow)
    → (x.id == y.id) ≡ false
    → Place team (with_ordinality 1 order) x
    → Place team (with_ordinality 1 order) y
    → PassEachOther
        (is_set_below team)
        set_positive
        (first_written team (with_ordinality 1 order) x)
        (first_written team (with_ordinality 1 order) y)
unfolding is_set_below set_positive negate eq_int
second-passes team order x y other (inl out) (inl out') =
    let v = with_ordinality 1 order in
    rw (first_written-out team v x out, first_written-out team v y out')
      (λ e. absurd (ground (arith, e, out)), λ e. absurd (ground (arith, e, out')))
second-passes team order x y other (inl out) (inr (m, at_y, inside')) =
    let v = with_ordinality 1 order in
    rw (first_written-out team v x out, first_written-in team m v y at_y inside')
      (
        λ e. absurd (ground (arith, e, out)),
        λ _. rw (out) (apart-out team (at (pos (suc m)) y) x inside' out),
      )
second-passes team order x y other (inr (n, at_x, inside)) (inl out') =
    let v = with_ordinality 1 order in
    rw (first_written-in team n v x at_x inside, first_written-out team v y out')
      (
        λ _. apart-out team (at (pos (suc n)) x) y inside out',
        λ e. absurd (ground (arith, e, out')),
      )
second-passes team order x y other (inr (n, at_x, inside)) (inr (m, at_y, inside')) =
    let v = with_ordinality 1 order in
    rw (first_written-in team n v x at_x inside, first_written-in team m v y at_y inside')
      (
        λ _. apart-at (at (pos (suc n)) x) (at (negsuc m) y) refl,
        λ _. rw ((second_written-in team n x inside).1) (
            apart-at (at (pos (suc m)) y) (at (pos (suc n)) x)
              (ground (arith, other-place order x y n m other at_x at_y))),
      )
