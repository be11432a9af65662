-- ===== src/Topics/LastActive.antt =====
-- The last active topic of a team under the transactions of the topic routes.
use Prim.Native.String.{String}
use project_dipstick.Base.{
  ℕ, ◌≤◌, Bool, true, false, ◌≡◌, ap, ◌∙◌, inl, inr, Option, some, List, [], ◌∷◌, arith, ◌==◌,
  Bool-cases, Option-cases, find_row, count_rows, count_rows-update_rows, count_rows-update_mono,
  count_rows-append, length,
}
use project_dipstick.Base.Int.{ℤ, pos, negsuc}
use project_dipstick.Topics.Defs.{JsText, World, TopicRow, State, active_in, topic_in}
use project_dipstick.Topics.Gates.{Ticket}
use project_dipstick.Topics.Names.{Plan, sort_rows, find_active_name_conflict}
use project_dipstick.Topics.Changes.{
  active_rows, copy_canonical_defaults, max_order, position_after, NewTopic, new_row, insert_custom,
  commit_add, finish_assign, commit_assign, is_active_topic, is_archived_topic, restore_row,
  restore_target, commit_restore, annotate_row, commit_annotate,
}
use project_dipstick.Topics.BulkRestore.{
  number_from, is_planned, restore_planned, restore_at, restore_plan, finish_restore,
  commit_restore_defaults,
}
use project_dipstick.Topics.Reorder.{
  update_checked, in_order, set_negative, is_set_below, set_positive, with_ordinality,
  finish_reorder, second_phase, write_order, commit_reorder,
}
use project_dipstick.Topics.Handle.{
  Change, add, assign_defaults, restore_defaults, archive, restore, reorder, annotate, commit,
}
use project_dipstick.Topics.Tidy.{IsTidy}
use project_dipstick.Topics.Phases.{update_checked-rows}
use project_dipstick.Topics.NewOrder.{set_negative-active, set_positive-active}
use project_dipstick.Topics.LastArchived.{active_count, commit_archive-count}

restore_target-count :
    (js : JsText) (now : ℕ) (t : Ticket) (r : TopicRow) (k : ℕ) (s : State)
    → active_count k s ≤ active_count k (restore_target js now t r s).0
unfolding restore_target
restore_target-count js now t r k s =
    let order = position_after (pos 0) (max_order (active_rows t.team s)) in
    let more =
      count_rows-update_mono (active_in k) (is_archived_topic t.team r.id)
        (restore_row now t.user order) s.topics (λ x h q. ground (arith, h, q)) in
    elim (Option-cases (find_active_name_conflict js (active_rows t.team s) r.content.name)) [
      | inl free ↦ rw (free, restore_target) more
      | inr (c, taken) ↦ rw (taken, restore_target) (omega arith)
    ]

commit_restore-count :
    (js : JsText) (now : ℕ) (t : Ticket) (topic k : ℕ) (s : State)
    → active_count k s ≤ active_count k (commit_restore js now t topic s).0
unfolding commit_restore
commit_restore-count js now t topic k s =
    elim (Option-cases (find_row (topic_in t.team topic) s.topics)) [
      | inl gone ↦ rw (gone, commit_restore) (omega arith)
      | inr (r, found) ↦ ground (arith, found, restore_target-count js now t r k s)
    ]

commit_add-count :
    (js : JsText) (t : Ticket) (n : NewTopic) (k : ℕ) (s : State)
    → active_count k s ≤ active_count k (commit_add js t n s).0
unfolding commit_add insert_custom
commit_add-count js t n k s =
    let order = position_after (negsuc 0) (max_order (active_rows t.team s)) in
    elim (Option-cases (find_active_name_conflict js (active_rows t.team s) n.name)) [
      | inl free ↦
          rw (free, commit_add)
            (count_rows-append (active_in k) (new_row s.next_id t.team order n ∷ []) s.topics)
      | inr (c, taken) ↦ rw (taken, commit_add) (omega arith)
    ]

commit_annotate-count :
    (js : JsText) (now : ℕ) (t : Ticket) (topic : ℕ) (a : Option String) (k : ℕ) (s : State)
    → active_count k s ≤ active_count k (commit_annotate js now t topic a s).0
unfolding commit_annotate
commit_annotate-count js now t topic a k s = ground (
  arith,
  count_rows-update_mono (active_in k) (is_active_topic t.team topic) (annotate_row now t.user a)
      s.topics (λ x h q. ground (arith, q)),
)

restore_plan-count :
    (now : ℕ) (t : Ticket) (p : ℤ) (plan : Plan) (k : ℕ) (s : State)
    → active_count k s ≤ active_count k (finish_restore now t p plan s).0
unfolding finish_restore restore_plan is_planned restore_planned restore_at
restore_plan-count now t p plan k s =
    let v = number_from p plan.restore in
    ground (
      arith,
      count_rows-update_mono (active_in k) (is_planned t.team v) (restore_planned now t.user v)
          s.topics (λ x h q. ground (arith, h, q)),
    )

second_phase-count :
    (t : Ticket) (order : List ℕ) (current mid : List TopicRow) (k : ℕ) (s : State)
    → count_rows (active_in k) mid ≡ active_count k s
    → active_count k s ≤ active_count k (second_phase t order current (some mid) s).0
unfolding second_phase finish_reorder
second_phase-count t order current mid k s e =
    elim (Option-cases (update_checked (is_set_below t.team) set_positive [] mid)) [
      | inl stuck ↦ rw (stuck, second_phase) (omega arith)
      | inr (us, found) ↦
          let kept =
            count_rows-update_rows (active_in k) (is_set_below t.team) set_positive mid
              (set_positive-active k) in
          rw (found, second_phase)
            (ground (
              arith,
              kept,
              e,
              update_checked-rows (is_set_below t.team) set_positive [] mid us found,
            ))
    ]

write_order-count :
    (t : Ticket) (order : List ℕ) (current : List TopicRow) (k : ℕ) (s : State)
    → active_count k s ≤ active_count k (write_order t order current s).0
unfolding write_order
write_order-count t order current k s =
    let v = with_ordinality 1 order in
    elim (Bool-cases (count_rows (in_order t.team v) s.topics == length order)) [
      | inr off ↦ rw (off, write_order) (omega arith)
      | inl all ↦
          elim (Option-cases (update_checked (in_order t.team v) (set_negative v) [] s.topics)) [
            | inl stuck ↦ rw (all, stuck, write_order, second_phase) (omega arith)
            | inr (mid, found) ↦
                rw (all, found, write_order)
                  (second_phase-count t order current mid k s (
                    ap (λ rows. count_rows (active_in k) rows)
                      (update_checked-rows (in_order t.team v) (set_negative v) [] s.topics mid
                        found)
                    ∙ count_rows-update_rows (active_in k) (in_order t.team v) (set_negative v)
                        s.topics (set_negative-active k v)))
          ]
    ]

commit_reorder-count :
    (t : Ticket) (order : List ℕ) (k : ℕ) (s : State)
    → active_count k s ≤ active_count k (commit_reorder t order s).0
unfolding commit_reorder
commit_reorder-count t order k s =
    let current = sort_rows (active_rows t.team s) in
    ground (arith, write_order-count t order current k s)

finish_assign-count :
    (b : Bool) (t : Ticket) (rows : List TopicRow) (k : ℕ) (s : State)
    → active_count k s ≤ active_count k (finish_assign b t rows s).0
unfolding finish_assign
finish_assign-count true t [] k s = omega arith
finish_assign-count false t [] k s = omega arith
finish_assign-count b t (r ∷ rs) k s = count_rows-append (active_in k) (r ∷ rs) s.topics

-- On a table that keeps its rules, a team that has an active topic has one after any transaction
-- of the topic routes, on whatever team this runs.
pub commit-active_count :
    (js : JsText) (names : Bool) (w : World) (t : Ticket) (c : Change) (k : ℕ) (s : State)
    → IsTidy js names s
    → 1 ≤ active_count k s
    → 1 ≤ active_count k (commit js w t c s).0
unfolding commit commit_assign commit_restore_defaults
commit-active_count js names w t (add n) k s tidy h = omega (arith, h, commit_add-count js t n k s)
commit-active_count js names w t assign_defaults k s tidy h =
    ground (arith, h, finish_assign-count w.audit_answers t (copy_canonical_defaults t.team s) k s)
commit-active_count js names w t restore_defaults k s tidy h =
    omega (arith, h, restore_plan-count w.now t _ _ k s)
commit-active_count js names w t (archive topic confirmed) k s tidy h =
    commit_archive-count js names w.now t topic confirmed k s tidy h
commit-active_count js names w t (restore topic) k s tidy h =
    omega (arith, h, commit_restore-count js w.now t topic k s)
commit-active_count js names w t (reorder ids) k s tidy h =
    omega (arith, h, commit_reorder-count t ids k s)
commit-active_count js names w t (annotate topic a) k s tidy h =
    omega (arith, h, commit_annotate-count js w.now t topic a k s)
