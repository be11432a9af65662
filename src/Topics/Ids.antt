-- ===== src/Topics/Ids.antt =====
-- Lists of ids: a list without repetition inside another of its length, and places in a list.
use project_dipstick.Base.{
  ℕ, suc, ◌+◌, ◌<◌, ◌≤◌, true, false, ◌&&◌, not, ◌≡◌, refl, ap, ◌∙◌, inl, inr, some, List, [], ◌∷◌,
  arith, ◌==◌, Bool-cases, select_rows, length, map_get,
}
use project_dipstick.Topics.Reorder.{
  distinct_ids, has_id, every, is_current_set, is_same_order, with_ordinality, is_listed,
}

abbrev pub IsDistinct : List ℕ → Type 0
IsDistinct [] = Unit
IsDistinct (x ∷ xs) = (has_id xs x ≡ false) × IsDistinct xs

abbrev without : ℕ → List ℕ → List ℕ
without y ys = select_rows (λ x. not (x == y)) ys

has_id-without : (y x : ℕ) (ys : List ℕ) → has_id (without y ys) x ≡ (has_id ys x && not (x == y))
unfolding select_rows
has_id-without y x [] = refl
has_id-without y x (z ∷ zs) = ground (arith, has_id-without y x zs)

length-without : (y : ℕ) (ys : List ℕ) → length (without y ys) ≤ length ys
unfolding select_rows
length-without y [] = omega arith
length-without y (z ∷ zs) = ground (arith, length-without y zs)

length-without_member :
    (y : ℕ) (ys : List ℕ) → has_id ys y ≡ true → length (without y ys) < length ys
unfolding select_rows
length-without_member y [] h = absurd (ground (arith, h))
length-without_member y (z ∷ zs) h =
    ground (arith, h, length-without y zs, length-without_member y zs)

every-without :
    (y : ℕ) (xs ys : List ℕ)
    → every (has_id ys) xs ≡ true
    → has_id xs y ≡ false
    → every (has_id (without y ys)) xs ≡ true
unfolding every
every-without y [] ys h k = refl
every-without y (x ∷ xs) ys h k = ground (arith, h, k, has_id-without y x ys, every-without y xs ys)

every-length :
    (xs ys : List ℕ) → IsDistinct xs → every (has_id ys) xs ≡ true → length xs ≤ length ys
unfolding every
every-length [] ys d h = omega arith
every-length (x ∷ xs) ys (d, ds) h =
    let inside : has_id ys x ≡ true = ground (arith, h) in
    let others : every (has_id ys) xs ≡ true = ground (arith, h) in
    let shorter = length-without_member x ys inside in
    let bound = every-length xs (without x ys) ds (every-without x xs ys others d) in
    omega (arith, shorter, bound)

-- A list without repetition inside one that is no longer holds all of it.
every-has_id :
    (xs ys : List ℕ) (y : ℕ)
    → IsDistinct xs
    → every (has_id ys) xs ≡ true
    → length ys ≤ length xs
    → has_id ys y ≡ true
    → has_id xs y ≡ true
every-has_id xs ys y d h l inside = elim (Bool-cases (has_id xs y)) [
  | inl there ↦ there
  | inr missing ↦
      let shorter = length-without_member y ys inside in
      let bound = every-length xs (without y ys) d (every-without y xs ys h missing) in
      absurd (omega (arith, shorter, bound, l))
]

has_id-distinct_ids : (ys : List ℕ) (x : ℕ) → has_id (distinct_ids ys) x ≡ has_id ys x
unfolding distinct_ids
has_id-distinct_ids [] x = refl
has_id-distinct_ids (y ∷ ys) x =
    ground (arith, has_id-distinct_ids ys x, λ (e : y ≡ x). ap (λ z. has_id ys z) e)

every-distinct_ids : (xs ys : List ℕ) → every (has_id ys) xs ≡ every (has_id (distinct_ids ys)) xs
unfolding every
every-distinct_ids [] ys = refl
every-distinct_ids (x ∷ xs) ys = ground (arith, has_id-distinct_ids ys x, every-distinct_ids xs ys)

pub distinct_ids-IsDistinct : (ys : List ℕ) → IsDistinct ys → distinct_ids ys ≡ ys
unfolding distinct_ids
distinct_ids-IsDistinct [] d = refl
distinct_ids-IsDistinct (y ∷ ys) (d, ds) =
    rw (d) (ap (λ zs. y ∷ zs) (distinct_ids-IsDistinct ys ds))

-- Every current id stands in a list without repetition that passes the route's test.
pub is_current_set-has_id :
    (order current : List ℕ) (y : ℕ)
    → IsDistinct order
    → is_current_set order current ≡ true
    → has_id current y ≡ true
    → has_id order y ≡ true
unfolding is_current_set
is_current_set-has_id order current y d h inside =
    every-has_id order (distinct_ids current) y d
      (ground (arith, h, every-distinct_ids order current)) (ground (arith, h))
      (has_id-distinct_ids current y ∙ inside)

pub is_same_order_sound :
    (xs ys : List ℕ) → is_same_order xs ys ≡ true → length xs ≡ length ys → xs ≡ ys
unfolding is_same_order
is_same_order_sound [] [] h l = refl
is_same_order_sound [] (y ∷ ys) h l = absurd (omega (arith, l))
is_same_order_sound (x ∷ xs) [] h l = absurd (omega (arith, l))
is_same_order_sound (x ∷ xs) (y ∷ ys) h l =
    let same : x ≡ y = ground (arith, h) in
    rw (same) (ap (λ zs. y ∷ zs) (is_same_order_sound xs ys (ground (arith, h)) (omega (arith, l))))

pub is_listed-has_id :
    (k : ℕ) (xs : List ℕ) (y : ℕ) → is_listed (map_get y (with_ordinality k xs)) ≡ has_id xs y
unfolding map_get with_ordinality
is_listed-has_id k [] y = refl
is_listed-has_id k (x ∷ xs) y = ground (arith, is_listed-has_id (suc k) xs y)

-- Places start at the given number and stay below it by the length.
pub with_ordinality-range :
    (k : ℕ) (xs : List ℕ) (y n : ℕ)
    → map_get y (with_ordinality k xs) ≡ some n
    → (k ≤ n) × (n < k + length xs)
unfolding map_get with_ordinality
with_ordinality-range k [] y n e = absurd (ground (arith, e))
with_ordinality-range k (x ∷ xs) y n e = (
  ground (arith, e, with_ordinality-range (suc k) xs y n),
  ground (arith, e, with_ordinality-range (suc k) xs y n),
)

-- Two ids at one place are one.
pub with_ordinality-injective :
    (k : ℕ) (xs : List ℕ) (y z n : ℕ)
    → map_get y (with_ordinality k xs) ≡ some n
    → map_get z (with_ordinality k xs) ≡ some n
    → y ≡ z
unfolding map_get with_ordinality
with_ordinality-injective k [] y z n e f = absurd (ground (arith, e))
with_ordinality-injective k (x ∷ xs) y z n e f = ground (
  arith,
  e,
  f,
  with_ordinality-injective (suc k) xs y z n,
  with_ordinality-range (suc k) xs y n,
  with_ordinality-range (suc k) xs z n,
)
