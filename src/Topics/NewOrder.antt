-- ===== src/Topics/NewOrder.antt =====
-- PUT topics/order (packages/backend/src/routes/topics.ts) against what it is asked: the list of
-- ids that the team's topics show afterwards.

use project_dipstick.Base.{
  ℕ, suc, true, false, ◌≡◌, refl, sym, ap, ◌∙◌, inl, inr, List, [], ◌∷◌, map, arith, ◌==◌, All,
  Bool-cases, select_rows, update_rows, count_rows, length, length-select_rows,
  count_rows-update_rows,
}
use project_dipstick.Base.Int.{is_negative}
use project_dipstick.Base.Pairs.{
  Pairwise, All-follows, All-always, Pairwise-follows, All-update_rows, All-select_rows,
  Pairwise-select_rows,
}
use project_dipstick.Base.{some}
use project_dipstick.Topics.Defs.{JsText, TopicRow, State, active_in}
use project_dipstick.Topics.Gates.{Ticket}
use project_dipstick.Topics.Names.{sort_rows}
use project_dipstick.Topics.Changes.{active_rows}
use project_dipstick.Topics.Reorder.{
  shares_position, in_order, set_negative, is_set_below, set_positive, with_ordinality,
  is_current_set, is_same_order, finish_reorder, second_phase, write_order, commit_reorder,
}
use project_dipstick.Topics.Tidy.{clashes, AreApart, IsTidy}
use project_dipstick.Topics.Copying.{All-sort_rows}
use project_dipstick.Topics.Reordering.{
  first_written, second_written, phases-IsTidy, set_negative-moves,
}
use project_dipstick.Topics.Ids.{is_same_order_sound}
use project_dipstick.Topics.Sorted.{
  length-sort_rows, HaveOtherPositions, sort_rows-increasing, IsPlaced, placed-ids,
}
use project_dipstick.Topics.Placing.{
  IsListed, Place, Place-of, first_written-in, first_written-out, second_written-in,
}
use project_dipstick.Topics.Bodies.{OrderBody, validate_order_body}
use project_dipstick.Topics.ValidOrder.{validate_order_body-IsDistinct}
use project_dipstick.Topics.Accepting.{
  current_ids, phase_rows, All-IsListed, length-map, order-length, phases-succeed,
}

count-listed :
    (team : ℕ) (v : List (ℕ × ℕ)) (rows : List TopicRow)
    → All (IsListed team v) rows
    → count_rows (in_order team v) rows ≡ count_rows (active_in team) rows
unfolding count_rows in_order
count-listed team v [] a = refl
count-listed team v (t ∷ ts) (a, rest) = elim (Bool-cases (active_in team t)) [
  | inl inside ↦ ground (arith, inside, a inside, count-listed team v ts rest)
  | inr out ↦ ground (arith, out, count-listed team v ts rest)
]

count-below :
    (team : ℕ) (v : List (ℕ × ℕ)) (rows : List TopicRow)
    → All (Place team v) rows
    → count_rows (is_set_below team) (update_rows (in_order team v) (set_negative v) rows)
      ≡ count_rows (active_in team) rows
unfolding count_rows update_rows is_set_below is_negative
count-below team v [] a = refl
count-below team v (t ∷ ts) (inl out, rest) =
    rw (first_written-out team v t out, out) (count-below team v ts rest)
count-below team v (t ∷ ts) (inr (n, found, inside), rest) =
    rw (first_written-in team n v t found inside, inside) (ap suc (count-below team v ts rest))

-- An active topic of the team, after both phases, is at its place.
twice-IsPlaced :
    (team : ℕ) (order : List ℕ) (x : TopicRow)
    → Place team (with_ordinality 1 order) x
    → active_in team (second_written team (first_written team (with_ordinality 1 order) x)) ≡ true
    → IsPlaced 1 order (second_written team (first_written team (with_ordinality 1 order) x))
unfolding is_set_below
twice-IsPlaced team order x (inl out) =
    rw (first_written-out team (with_ordinality 1 order) x out, out)
      (λ e. absurd (ground (arith, e, out)))
twice-IsPlaced team order x (inr (n, found, inside)) =
    rw
      (
        first_written-in team n (with_ordinality 1 order) x found inside,
        (second_written-in team n x inside).1,
      )
      (λ _. (suc n, found, refl))

pub set_negative-active :
    (team : ℕ) (v : List (ℕ × ℕ)) (x : TopicRow)
    → active_in team (set_negative v x) ≡ active_in team x
set_negative-active team v x = rw (set_negative-moves v x) refl

pub set_positive-active :
    (team : ℕ) (x : TopicRow) → active_in team (set_positive x) ≡ active_in team x
unfolding set_positive
set_positive-active team x = refl

positions-apart :
    (js : JsText) (team : ℕ) (rows : List TopicRow)
    → Pairwise (AreApart js false) rows
    → Pairwise HaveOtherPositions (select_rows (active_in team) rows)
unfolding clashes shares_position
positions-apart js team rows apart =
    Pairwise-follows HaveOtherPositions (AreApart js false) (λ t. active_in team t ≡ true)
      (select_rows (active_in team) rows) (λ x y h k e. ground (arith, h, k, e))
      (All-select_rows (λ t. active_in team t ≡ true) (active_in team) rows
        (All-always (λ t. active_in team t ≡ true → active_in team t ≡ true) rows (λ t h. h)))
      (Pairwise-select_rows (AreApart js false) (active_in team) rows apart)

-- The topics after both phases show the order.
phases-ids :
    (js : JsText) (team : ℕ) (order : List ℕ) (s : State)
    → IsTidy js false s
    → All (IsListed team (with_ordinality 1 order)) s.topics
    → length order ≡ count_rows (active_in team) s.topics
    → map
        (λ r. r.id)
        (sort_rows
          (select_rows (active_in team) (phase_rows team (with_ordinality 1 order) s.topics)))
      ≡ order
phases-ids js team order s tidy listed count =
    let v = with_ordinality 1 order in
    let rows = phase_rows team v s.topics in
    let mid = update_rows (in_order team v) (set_negative v) s.topics in
    let L = select_rows (active_in team) rows in
    let ok = phases-succeed js team order s tidy listed in
    let next = phases-IsTidy js false team v mid rows s ok.0 ok.1 tidy in
    let places =
      All-follows (IsListed team v) (Place team v) s.topics (λ x h. Place-of team order x h)
        listed in
    placed-ids 1 order (sort_rows L)
      (length-sort_rows L
        ∙ length-select_rows (active_in team) rows
        ∙ count_rows-update_rows (active_in team) (is_set_below team) set_positive mid
            (set_positive-active team)
        ∙ count_rows-update_rows (active_in team) (in_order team v) (set_negative v) s.topics
            (set_negative-active team v)
        ∙ sym count)
      (sort_rows-increasing L (positions-apart js team rows next.apart))
      (All-sort_rows (IsPlaced 1 order) L (
        All-select_rows (IsPlaced 1 order) (active_in team) rows (
          All-update_rows (λ x. active_in team x ≡ true → IsPlaced 1 order x) (is_set_below team)
            set_positive mid
            (All-update_rows
              (λ x.
                active_in team (second_written team x) ≡ true
                → IsPlaced 1 order (second_written team x))
              (in_order team v) (set_negative v) s.topics
              (All-follows (Place team v)
                (λ x.
                  active_in team (second_written team (first_written team v x)) ≡ true
                  → IsPlaced 1 order (second_written team (first_written team v x)))
                s.topics (twice-IsPlaced team order) places)))))

write_order-ids :
    (js : JsText) (t : Ticket) (order : List ℕ) (current : List TopicRow) (s : State)
    → IsTidy js false s
    → All (IsListed t.team (with_ordinality 1 order)) s.topics
    → length order ≡ count_rows (active_in t.team) s.topics
    → ((write_order t order current s).1.code ≡ 200)
      × (current_ids t.team (write_order t order current s).0 ≡ order)
unfolding write_order second_phase finish_reorder
write_order-ids js t order current s tidy listed count =
    let v = with_ordinality 1 order in
    let ok = phases-succeed js t.team order s tidy listed in
    let places =
      All-follows (IsListed t.team v) (Place t.team v) s.topics (λ x h. Place-of t.team order x h)
        listed in
    let n = length order in
    let first : (count_rows (in_order t.team v) s.topics == n) ≡ true =
      ground (arith, count, count-listed t.team v s.topics listed) in
    let second : (count_rows (is_set_below t.team)
            (update_rows (in_order t.team v) (set_negative v) s.topics)
          == n)
        ≡ true =
      ground (arith, count, count-below t.team v s.topics places) in
    rw (first, ok.0, write_order, ok.1, second, second_phase)
      (refl, phases-ids js t.team order s tidy listed count)

-- On a table that keeps its rules, a body that the validation lets through, and whose ids are
-- just those of the team's active topics, is accepted, no write of either phase meets the unique
-- index, and afterwards the active topics, by position, are its list.
pub commit_reorder-current_ids :
    (js : JsText) (t : Ticket) (b : OrderBody) (order : List ℕ) (s : State)
    → IsTidy js false s
    → validate_order_body b ≡ some order
    → is_current_set order (current_ids t.team s) ≡ true
    → ((commit_reorder t order s).1.code ≡ 200)
      × (current_ids t.team (commit_reorder t order s).0 ≡ order)
unfolding commit_reorder
commit_reorder-current_ids js t b order s tidy valid h =
    let count = order-length js t.team order s tidy h in
    let d = (validate_order_body-IsDistinct b order valid).0 in
    elim (Bool-cases (is_same_order order (current_ids t.team s))) [
      | inl same ↦
          let rows = active_rows t.team s in
          rw (h, same, commit_reorder)
            (
              refl,
              sym (
                  is_same_order_sound order (current_ids t.team s) same (
                    count
                    ∙ sym (
                        length-map (sort_rows rows)
                        ∙ length-sort_rows rows
                        ∙ length-select_rows (active_in t.team) s.topics))),
            )
      | inr other ↦
          rw (h, other, commit_reorder)
            (write_order-ids js t order (sort_rows (active_rows t.team s)) s tidy
              (All-IsListed t.team order s d h) count)
    ]
