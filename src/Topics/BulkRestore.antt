-- ===== src/Topics/BulkRestore.antt =====
-- The transaction of POST topics/restore-defaults (packages/backend/src/routes/topics.ts), which
-- restores in one UPDATE every archived default whose name is free.
use Prim.Native.String.{String}
use project_dipstick.Base.{
  ℕ, Bool, true, false, ◌&&◌, not, Option, none, some, List, [], ◌∷◌, map, ◌==◌, if◌then◌else◌,
  length, take, select_rows, update_rows, count_rows, map_get,
}
use project_dipstick.Base.Int.{ℤ, pos, add_one}
use project_dipstick.Topics.Defs.{JsText, TopicRow, State, TopicReply, reply, audit}
use project_dipstick.Topics.Defs as Defs
use project_dipstick.Topics.Gates.{Ticket}
use project_dipstick.Topics.Names.{Plan, plan_default_restore}
use project_dipstick.Topics.Changes.{active_rows, max_order, restore_row}

-- The archived topics that came with the defaults.
abbrev pub is_archived_default : ℕ → TopicRow → Bool
is_archived_default team t = (t.team_id == team && not t.is_active) && t.is_default

abbrev pub archived_defaults : ℕ → State → List TopicRow
archived_defaults team s = select_rows (is_archived_default team) s.topics

-- `base`: 0 without an active topic.
abbrev pub or_zero : Option ℤ → ℤ
or_zero none = pos 0
or_zero (some m) = m

-- The i-th restored topic gets the i-th position from the given one on.
unfoldable pub number_from : ℤ → List TopicRow → List (ℕ × ℤ)
unfolding add_one
number_from p [] = []
number_from p (t ∷ ts) = (t.id, p) ∷ number_from (add_one p) ts

abbrev pub is_given : Option ℤ → Bool
is_given none = false
is_given (some p) = true

-- The rows that the UPDATE joins with the ids.
unfoldable pub is_planned : ℕ → List (ℕ × ℤ) → TopicRow → Bool
unfolding map_get
is_planned team v t = (t.team_id == team && not t.is_active) && is_given (map_get t.id v)

unfoldable pub restore_at : ℕ → ℕ → Option ℤ → TopicRow → TopicRow
restore_at now user none t = t
restore_at now user (some p) t = restore_row now user p t

unfoldable pub restore_planned : ℕ → ℕ → List (ℕ × ℤ) → TopicRow → TopicRow
unfolding map_get restore_at
restore_planned now user v t = restore_at now user (map_get t.id v) t

unfoldable pub list_restored : ℤ → List TopicRow → List (ℕ × String × ℤ)
unfolding add_one
list_restored p [] = []
list_restored p (t ∷ ts) = (t.id, t.content.name, p) ∷ list_restored (add_one p) ts

abbrev pub list_skipped : List TopicRow → List (ℕ × String)
list_skipped ts = map (λ t. (t.id, t.content.name)) ts

unfoldable pub restore_plan : ℕ → Ticket → ℤ → Plan → State → State × TopicReply
unfolding is_planned restore_planned number_from list_restored
restore_plan now t p plan s =
    let v = number_from p plan.restore in
    if not (count_rows (is_planned t.team v) s.topics == length plan.restore)
    then (s, reply 500 Defs.internal_error)
    else (
      audit t.user (some t.role)
          (Defs.defaults_restored v (take 100 (map (λ r. r.id) plan.skipped)) (length plan.restore)
            (length plan.skipped))
          t.team
          (record s {
            topics = update_rows (is_planned t.team v) (restore_planned now t.user v) s.topics;
          }),
      reply 200 (Defs.restored_defaults (list_restored p plan.restore) (list_skipped plan.skipped)),
    )

-- Nothing to restore is answered without a write.
unfoldable pub finish_restore : ℕ → Ticket → ℤ → Plan → State → State × TopicReply
unfolding restore_plan
finish_restore now t p plan s = elim plan.restore [
  | [] ↦ (s, reply 200 (Defs.restored_defaults [] (list_skipped plan.skipped)))
  | r ∷ rs ↦ restore_plan now t p plan s
]

unfoldable pub commit_restore_defaults : JsText → ℕ → Ticket → State → State × TopicReply
unfolding finish_restore plan_default_restore max_order
commit_restore_defaults js now t s =
    finish_restore now t (add_one (or_zero (max_order (active_rows t.team s))))
      (plan_default_restore js (archived_defaults t.team s)
        (map (λ r. r.content.name) (active_rows t.team s)))
      s
