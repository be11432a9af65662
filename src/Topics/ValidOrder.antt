-- ===== src/Topics/ValidOrder.antt =====
-- What the validation of an order lets through (validateReorderTopicsBody of
-- packages/backend/src/routes/topics.ts).

use mathlib.Core.Path.{subst}
use project_dipstick.Base.{
  ℕ, ◌≤◌, true, ◌≡◌, sym, inl, inr, Option, none, some, List, [], ◌∷◌, arith, ◌==◌, Bool-cases,
  Option-cases, length,
}
use project_dipstick.Topics.Reorder.{distinct_ids, has_id}
use project_dipstick.Topics.Bodies.{
  OrderBody, no_object, no_array, entries, all_ids, without_repeats, validate_order_body,
}
use project_dipstick.Topics.Ids.{IsDistinct}

length-distinct_ids : (ids : List ℕ) → length (distinct_ids ids) ≤ length ids
unfolding distinct_ids
length-distinct_ids [] = omega arith
length-distinct_ids (x ∷ xs) = ground (arith, length-distinct_ids xs)

distinct_ids-full :
    (ids : List ℕ) → (length (distinct_ids ids) == length ids) ≡ true → IsDistinct ids
unfolding distinct_ids
distinct_ids-full [] h = tt
distinct_ids-full (x ∷ xs) h = elim (Bool-cases (has_id xs x)) [
  | inl again ↦ absurd (ground (arith, h, again, length-distinct_ids xs))
  | inr fresh ↦ (fresh, distinct_ids-full xs (ground (arith, h, fresh)))
]

length-all_ids :
    (es : List (Option ℕ)) (ids : List ℕ) → all_ids es ≡ some ids → length ids ≡ length es
unfolding all_ids
length-all_ids [] ids e = ground (arith, e)
length-all_ids (none ∷ es) ids e = absurd (ground (arith, e))
length-all_ids (some x ∷ es) ids e = elim (Option-cases (all_ids es)) [
  | inl bad ↦ absurd (ground (arith, bad, e))
  | inr (xs, good) ↦ ground (arith, good, e, length-all_ids es xs good)
]

-- An order that its validation lets through names 1 to 200 topics, none of them twice.
pub validate_order_body-IsDistinct :
    (b : OrderBody) (ids : List ℕ)
    → validate_order_body b ≡ some ids
    → IsDistinct ids × (1 ≤ length ids) × (length ids ≤ 200)
unfolding validate_order_body without_repeats
validate_order_body-IsDistinct no_object ids e = absurd (ground (arith, e))
validate_order_body-IsDistinct no_array ids e = absurd (ground (arith, e))
validate_order_body-IsDistinct (entries es) ids e = elim (Option-cases (all_ids es)) [
  | inl bad ↦ absurd (ground (arith, bad, e))
  | inr (xs, good) ↦
      let same : xs ≡ ids = ground (arith, good, e) in
      let kept : (length (distinct_ids xs) == length xs) ≡ true = ground (arith, good, e) in
      let long = length-all_ids es xs good in
      (
        subst IsDistinct same (distinct_ids-full xs kept),
        rw (sym same) (ground (arith, good, e, long)),
        rw (sym same) (ground (arith, good, e, long)),
      )
]
