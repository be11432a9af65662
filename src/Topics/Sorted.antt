-- ===== src/Topics/Sorted.antt =====
-- Rows with different positions, sorted, and the ids that they then show.

use project_dipstick.Base.{
  ℕ, suc, ◌+◌, ◌<◌, ◌≤◌, Bool, true, false, ◌||◌, ◌≡◌, refl, ap, inl, inr, some, List, [], ◌∷◌, map,
  arith, All, Bool-cases, any, length, map_get,
}
use project_dipstick.Base.Int.{ℤ, pos, lt_int, eq_int, lt_int_total, lt_int_chain, eq_int_sym}
use project_dipstick.Base.Pairs.{Pairwise, All-follows, All-both}
use project_dipstick.Topics.Defs.{TopicRow}
use project_dipstick.Topics.Names.{comes_before, insert_row, sort_rows}
use project_dipstick.Topics.Copying.{All-sort_rows}
use project_dipstick.Topics.Reorder.{with_ordinality}
use project_dipstick.Topics.Ids.{with_ordinality-range}

pub length-insert_row :
    (t : TopicRow) (us : List TopicRow) → length (insert_row t us) ≡ suc (length us)
unfolding insert_row
length-insert_row t [] = refl
length-insert_row t (u ∷ us) = ground (arith, length-insert_row t us)

pub length-sort_rows : (ts : List TopicRow) → length (sort_rows ts) ≡ length ts
unfolding sort_rows
length-sort_rows [] = refl
length-sort_rows (t ∷ ts) = ground (arith, length-insert_row t (sort_rows ts), length-sort_rows ts)

any-insert_row :
    (q : TopicRow → Bool) (t : TopicRow) (us : List TopicRow)
    → any q (insert_row t us) ≡ (q t || any q us)
unfolding insert_row
any-insert_row q t [] = refl
any-insert_row q t (u ∷ us) = ground (arith, any-insert_row q t us)

pub any-sort_rows : (q : TopicRow → Bool) (ts : List TopicRow) → any q (sort_rows ts) ≡ any q ts
unfolding sort_rows
any-sort_rows q [] = refl
any-sort_rows q (t ∷ ts) = ground (arith, any-insert_row q t (sort_rows ts), any-sort_rows q ts)

abbrev pub StandBefore : TopicRow → TopicRow → Type 0
StandBefore a b = lt_int a.display_order b.display_order ≡ true

abbrev pub HaveOtherPositions : TopicRow → TopicRow → Type 0
HaveOtherPositions a b = eq_int a.display_order b.display_order ≡ false

comes_before-position :
    (u t : TopicRow) → comes_before u t ≡ true → HaveOtherPositions t u → StandBefore u t
unfolding comes_before
comes_before-position u t h o = ground (arith, h, o, eq_int_sym t.display_order u.display_order)

comes_before-not :
    (u t : TopicRow) → comes_before u t ≡ false → HaveOtherPositions t u → StandBefore t u
unfolding comes_before
comes_before-not u t h o = lt_int_total t.display_order u.display_order (ground (arith, h)) o

All-insert_row :
    (P : TopicRow → Type 0) (t : TopicRow) (us : List TopicRow)
    → P t
    → All P us
    → All P (insert_row t us)
unfolding insert_row
All-insert_row P t [] a rest = (a, tt)
All-insert_row P t (u ∷ us) a (b, rest) = elim (Bool-cases (comes_before u t)) [
  | inl before ↦ rw (before, insert_row) (b, All-insert_row P t us a rest)
  | inr after ↦ rw (after, insert_row) (a, (b, rest))
]

insert_row-increasing :
    (t : TopicRow) (us : List TopicRow)
    → All (HaveOtherPositions t) us
    → Pairwise StandBefore us
    → Pairwise StandBefore (insert_row t us)
unfolding insert_row
insert_row-increasing t [] a b = (tt, tt)
insert_row-increasing t (u ∷ us) (a, rest) (b, bs) = elim (Bool-cases (comes_before u t)) [
  | inl before ↦
      rw (before, insert_row)
        (
          All-insert_row (StandBefore u) t us (comes_before-position u t before a) b,
          insert_row-increasing t us rest bs,
        )
  | inr after ↦
      let first = comes_before-not u t after a in
      rw (after, insert_row)
        (
          (
            first,
            All-follows (StandBefore u) (StandBefore t) us
                (λ v h. lt_int_chain t.display_order u.display_order v.display_order first h) b,
          ),
          (b, bs),
        )
]

pub sort_rows-increasing :
    (ts : List TopicRow) → Pairwise HaveOtherPositions ts → Pairwise StandBefore (sort_rows ts)
unfolding sort_rows
sort_rows-increasing [] a = tt
sort_rows-increasing (t ∷ ts) (a, rest) =
    insert_row-increasing t (sort_rows ts) (All-sort_rows (HaveOtherPositions t) ts a)
      (sort_rows-increasing ts rest)

-- The row's position is the place of its id in the list.
abbrev pub IsPlaced : ℕ → List ℕ → TopicRow → Type 0
IsPlaced k order a =
    (n : ℕ) × (map_get a.id (with_ordinality k order) ≡ some n) × (a.display_order ≡ pos n)

pos-lt : (a b : ℤ) (m n : ℕ) → lt_int a b ≡ true → a ≡ pos m → b ≡ pos n → m < n
unfolding lt_int
pos-lt a b m n h e f = let g : lt_int (pos m) (pos n) ≡ true = rw (e, f) at h in ground (arith, g)

-- Increasing positions from n on need as many numbers as there are rows.
placed-span :
    (k n b : ℕ) (order : List ℕ) (a : TopicRow) (L : List TopicRow)
    → a.display_order ≡ pos n
    → n < b
    → k + length order ≤ b
    → All (StandBefore a) L
    → Pairwise StandBefore L
    → All (IsPlaced k order) L
    → n + length L < b
placed-span k n b order a [] e h w s p q = omega (arith, h)
placed-span k n b order a (c ∷ cs) e h w (s, ss) (p, ps) ((m, at_m, f), qs) =
    let step = pos-lt a.display_order c.display_order n m s e f in
    let range = with_ordinality-range k order c.id m at_m in
    let rest = placed-span k m b order c cs f (omega (arith, range.1, w)) w p ps qs in
    omega (arith, step, rest)

placed-first :
    (k o n x : ℕ) (os : List ℕ) → map_get x (with_ordinality k (o ∷ os)) ≡ some n → n ≤ k → x ≡ o
unfolding with_ordinality map_get
placed-first k o n x os e h = ground (arith, e, h, with_ordinality-range (suc k) os x n)

placed-later :
    (k o : ℕ) (os : List ℕ) (c : TopicRow) (m : ℕ)
    → map_get c.id (with_ordinality k (o ∷ os)) ≡ some m
    → k < m
    → map_get c.id (with_ordinality (suc k) os) ≡ some m
unfolding with_ordinality map_get
placed-later k o os c m e h = ground (arith, e, h)

-- Sorted rows at the places of a list of their number show that list.
pub placed-ids :
    (k : ℕ) (order : List ℕ) (L : List TopicRow)
    → length L ≡ length order
    → Pairwise StandBefore L
    → All (IsPlaced k order) L
    → map (λ r. r.id) L ≡ order
placed-ids k [] [] l s p = refl
placed-ids k [] (a ∷ L) l s p = absurd (omega (arith, l))
placed-ids k (o ∷ os) [] l s p = absurd (omega (arith, l))
placed-ids k (o ∷ os) (a ∷ L) l (s, ss) ((n, at_n, e), p) =
    let range = with_ordinality-range k (o ∷ os) a.id n at_n in
    let span = placed-span k n (k + length (o ∷ os)) (o ∷ os) a L e range.1 (omega arith) s ss p in
    let first : n ≤ k = omega (arith, span, l) in
    rw (placed-first k o n a.id os at_n first) (
      ap (λ xs. o ∷ xs)
        (placed-ids (suc k) os L (omega (arith, l)) ss (
          All-follows (λ c. StandBefore a c × IsPlaced k (o ∷ os) c) (IsPlaced (suc k) os) L
            (λ c h. (
              h.1.0,
              placed-later k o os c h.1.0 h.1.1 (
                  omega
                    (arith, range.0, pos-lt a.display_order c.display_order n h.1.0 h.0 e h.1.2)),
              h.1.2,
            ))
            (All-both (StandBefore a) (IsPlaced k (o ∷ os)) L s p))))
