-- ===== src/Topics/Changes/Archiving.antt =====
-- The transactions of DELETE topics/:topicId, with
-- packages/backend/src/auth/open-action-items-helper.ts, and of POST topics/:topicId/restore
-- (packages/backend/src/routes/topics.ts).

use project_dipstick.Base.{
  ℕ, Bool, true, false, ◌&&◌, not, Option, none, some, List, map, ◌==◌, ltb, leb, if◌then◌else◌,
  length, find_row, select_rows, update_rows, count_rows, any,
}
use project_dipstick.Base.Int.{ℤ, pos}
use project_dipstick.Topics.Defs.{
  JsText, TopicRow, ActionItem, State, TopicReply, TopicBody, reply, audit, active_in, topic_in,
}
use project_dipstick.Topics.Defs as Defs
use project_dipstick.Topics.Gates.{Ticket}
use project_dipstick.Topics.Names.{find_active_name_conflict}
use project_dipstick.Topics.Changes.Positions.{active_rows, max_order, position_after, name_active}

-- An item without a session topic joins none.
abbrev pub joins_topic : Option ℕ → ℕ → State → Bool
joins_topic none topic s = false
joins_topic (some id) topic s = any (λ r. r.id == id && r.topic_id == topic) s.session_topics

-- getOpenActionItemsForTopic.
unfoldable pub open_action_items : ℕ → State → List ActionItem
open_action_items topic s =
    select_rows (λ i. i.is_open && joins_topic i.session_topic_id topic s) s.action_items

abbrev pub is_active_topic : ℕ → ℕ → TopicRow → Bool
is_active_topic team topic t = topic_in team topic t && t.is_active

abbrev pub archive_row : ℕ → ℕ → TopicRow → TopicRow
archive_row now user t = record t {
  is_active = false;
  archived_at = some now;
  archived_by = some user;
}

unfoldable pub archive_topic : ℕ → Ticket → ℕ → State → State × TopicReply
unfolding open_action_items
archive_topic now t topic s = elim (find_row (is_active_topic t.team topic) s.topics) [
  | none ↦ (s, reply 422 Defs.topic_already_archived)
  | some r ↦ (
    audit t.user (some t.role) (Defs.archived topic (length (open_action_items topic s))) t.team
        (record s {
          topics = update_rows (is_active_topic t.team topic) (archive_row now t.user) s.topics;
        }),
    reply 200 (Defs.archived_topic topic now),
  )
]

-- DELETE topics/:topicId. Unconfirmed, open action items ask for a confirmation first.
unfoldable pub commit_archive : ℕ → Ticket → ℕ → Bool → State → State × TopicReply
unfolding open_action_items archive_topic
commit_archive now t topic confirmed s =
    if leb (count_rows (active_in t.team) s.topics) 1
    then (s, reply 409 Defs.topic_last_active)
    else if not confirmed && ltb 0 (length (open_action_items topic s))
    then (
      s,
      reply 200 (
          Defs.requires_confirmation
            (map (λ i. (i.id, i.description)) (open_action_items topic s))),
    )
    else archive_topic now t topic s

abbrev pub is_archived_topic : ℕ → ℕ → TopicRow → Bool
is_archived_topic team topic t = topic_in team topic t && not t.is_active

abbrev pub restore_row : ℕ → ℕ → ℤ → TopicRow → TopicRow
restore_row now user order t = record t {
  is_active = true;
  display_order = order;
  restored_at = some now;
  restored_by = some user;
}

unfoldable pub restore_target : JsText → ℕ → Ticket → TopicRow → State → State × TopicReply
unfolding find_active_name_conflict position_after max_order
restore_target js now t r s =
    let order = position_after (pos 0) (max_order (active_rows t.team s)) in
    elim (find_active_name_conflict js (active_rows t.team s) r.content.name) [
      | some c ↦ (s, name_active c)
      | none ↦ (
        audit t.user (some t.role) (Defs.restored r.id) t.team (record s {
          topics =
              update_rows (is_archived_topic t.team r.id) (restore_row now t.user order) s.topics;
        }),
        reply 200 (Defs.restored_topic r.id r.content.name order),
      )
    ]

-- POST topics/:topicId/restore. The target is the first row of that id; the row to update is there,
-- since the same transaction has just read it under the lock.
unfoldable pub commit_restore : JsText → ℕ → Ticket → ℕ → State → State × TopicReply
unfolding restore_target
commit_restore js now t topic s = elim (find_row (topic_in t.team topic) s.topics) [
  | none ↦ (s, reply 422 Defs.topic_already_active)
  | some r ↦
      if r.is_active then (s, reply 422 Defs.topic_already_active) else restore_target js now t r s
]
