-- ===== src/Topics/Reordering.antt =====
-- The rules of the table under PUT topics/order.

use project_dipstick.Base.{
  ℕ, zero, suc, ◌<◌, Bool, ◌≡◌, refl, inl, inr, some, List, [], arith, ◌==◌, if◌then◌else◌, All,
  Bool-cases, Option-cases, map, update_rows, length, count_rows, map_get,
}
use project_dipstick.Base.Int.{negate, is_negative}
use project_dipstick.Base.Pairs.{All-follows, All-always, All-update_rows}
use project_dipstick.Topics.Defs.{JsText, TopicRow, State}
use project_dipstick.Topics.Gates.{Ticket}
use project_dipstick.Topics.Names.{sort_rows}
use project_dipstick.Topics.Changes.{active_rows}
use project_dipstick.Topics.Reorder.{
  update_checked, in_order, set_negative, place_below, is_set_below, set_positive, finish_reorder,
  second_phase, write_order, commit_reorder, with_ordinality, is_current_set, is_same_order,
}
use project_dipstick.Topics.Tidy.{IsCounted, IsTidy}
use project_dipstick.Topics.Phases.{MovesOnly, update_checked-apart, update_checked-rows}

pub set_negative-moves : (v : List (ℕ × ℕ)) → MovesOnly (set_negative v)
unfolding set_negative place_below
set_negative-moves v t = elim (Option-cases (map_get t.id v)) [
  | inl out ↦ rw (out) refl
  | inr (n, found) ↦ rw (found) refl
]

pub set_positive-moves : MovesOnly set_positive
unfolding set_positive
set_positive-moves t = refl

-- A row after both phases.
abbrev pub first_written : ℕ → List (ℕ × ℕ) → TopicRow → TopicRow
first_written team v t = if in_order team v t then set_negative v t else t

abbrev pub second_written : ℕ → TopicRow → TopicRow
second_written team t = if is_set_below team t then set_positive t else t

twice-IsCounted :
    (team : ℕ) (v : List (ℕ × ℕ)) (t : TopicRow)
    → IsCounted t
    → IsCounted (second_written team (first_written team v t))
unfolding in_order is_set_below set_negative set_positive place_below negate is_negative
twice-IsCounted team v t h = elim (Option-cases (map_get t.id v)) [
  | inl out ↦ λ a. ground (arith, out, h, a)
  | inr (zero, found) ↦ λ a. ground (arith, found, h, a)
  | inr (suc n, found) ↦ λ a. ground (arith, found, h, a)
]

twice-id :
    (team : ℕ) (v : List (ℕ × ℕ)) (t : TopicRow)
    → (second_written team (first_written team v t)).id ≡ t.id
unfolding set_negative set_positive place_below
twice-id team v t = elim (Option-cases (map_get t.id v)) [
  | inl out ↦ ground (arith, out)
  | inr (n, found) ↦ ground (arith, found)
]

phases-All :
    (P : TopicRow → Type 0) (team : ℕ) (v : List (ℕ × ℕ)) (rows mid us : List TopicRow)
    → ((t : TopicRow) → P t → P (second_written team (first_written team v t)))
    → update_checked (in_order team v) (set_negative v) [] rows ≡ some mid
    → update_checked (is_set_below team) set_positive [] mid ≡ some us
    → All P rows
    → All P us
phases-All P team v rows mid us keep e f a =
    rw (update_checked-rows (is_set_below team) set_positive [] mid us f) (
      rw (update_checked-rows (in_order team v) (set_negative v) [] rows mid e) (
        All-update_rows P (is_set_below team) set_positive
          (update_rows (in_order team v) (set_negative v) rows)
          (All-update_rows (λ t. P (second_written team t)) (in_order team v) (set_negative v) rows
            (All-follows P (λ t. P (second_written team (first_written team v t))) rows keep a))))

pub phases-IsTidy :
    (js : JsText) (names : Bool) (team : ℕ) (v : List (ℕ × ℕ)) (mid us : List TopicRow) (s : State)
    → update_checked (in_order team v) (set_negative v) [] s.topics ≡ some mid
    → update_checked (is_set_below team) set_positive [] mid ≡ some us
    → IsTidy js names s
    → IsTidy js names (record s { topics = us })
phases-IsTidy js names team v mid us s e f tidy =
    let (first, none1) =
      update_checked-apart js names (in_order team v) (set_negative v) [] s.topics mid
        (set_negative-moves v) (All-always (λ t. Unit {0}) s.topics (λ t. tt)) tidy.apart e in
    let (second, none2) =
      update_checked-apart js names (is_set_below team) set_positive [] mid us set_positive-moves
        (All-always (λ t. Unit {0}) mid (λ t. tt)) first f in
    record {
      apart = second;
      counted =
          phases-All IsCounted team v s.topics mid us (twice-IsCounted team v) e f tidy.counted;
      known =
          phases-All (λ t. t.id < s.next_id) team v s.topics mid us
            (λ t h. omega (arith, h, twice-id team v t)) e f tidy.known;
    }

write_order-IsTidy :
    (js : JsText) (names : Bool) (t : Ticket) (order : List ℕ) (current : List TopicRow) (s : State)
    → IsTidy js names s
    → IsTidy js names (write_order t order current s).0
unfolding write_order second_phase finish_reorder
write_order-IsTidy js names t order current s tidy =
    let v = with_ordinality 1 order in
    elim (Bool-cases (count_rows (in_order t.team v) s.topics == length order)) [
      | inr off ↦ rw (off, write_order) tidy
      | inl all ↦
          elim (Option-cases (update_checked (in_order t.team v) (set_negative v) [] s.topics)) [
            | inl stuck ↦ rw (all, stuck, write_order) tidy
            | inr (mid, e) ↦
                elim (Option-cases (update_checked (is_set_below t.team) set_positive [] mid)) [
                  | inl stuck ↦ rw (all, e, write_order, stuck, second_phase) tidy
                  | inr (us, f) ↦
                      elim (Bool-cases (count_rows (is_set_below t.team) mid == length order)) [
                        | inr off ↦ rw (all, e, write_order, f, off, second_phase) tidy
                        | inl all' ↦
                            let next = phases-IsTidy js names t.team v mid us s e f tidy in
                            rw (all, e, write_order, f, all', second_phase)
                              (record {
                                apart = next.apart;
                                counted = next.counted;
                                known = next.known;
                              })
                      ]
                ]
          ]
    ]

pub commit_reorder-IsTidy :
    (js : JsText) (names : Bool) (t : Ticket) (order : List ℕ) (s : State)
    → IsTidy js names s
    → IsTidy js names (commit_reorder t order s).0
unfolding commit_reorder
commit_reorder-IsTidy js names t order s tidy =
    let current = sort_rows (active_rows t.team s) in
    let previous = map (λ r. r.id) current in
    elim (Bool-cases (is_current_set order previous)) [
      | inr stale ↦ rw (stale, commit_reorder) tidy
      | inl fresh ↦ elim (Bool-cases (is_same_order order previous)) [
        | inl same ↦ rw (fresh, same, commit_reorder) tidy
        | inr other ↦
            rw (fresh, other, commit_reorder) (write_order-IsTidy js names t order current s tidy)
      ]
    ]
