-- ===== src/Topics/Sequence.antt =====
-- POST topics/restore-defaults against the single restores of the same topics
-- (packages/backend/src/routes/topics.ts): two implementations of one rule on names and positions.

use project_dipstick.Base.{
  ℕ, ◌+◌, true, false, ◌≡◌, refl, some, List, [], ◌∷◌, arith, any, find_row, update_rows,
  count_rows, map_get,
}
use project_dipstick.Base.Int.{ℤ, pos}
use project_dipstick.Topics.Defs.{JsText, TopicRow, State, topic_in}
use project_dipstick.Topics.Gates.{Ticket}
use project_dipstick.Topics.Names.{same_name}
use project_dipstick.Topics.Changes.{
  active_rows, max_order, position_after, is_archived_topic, restore_row, restore_target,
  commit_restore,
}
use project_dipstick.Topics.BulkRestore.{is_planned, restore_at, restore_planned}
use project_dipstick.Topics.Free.{find_active_name_conflict-some, find_active_name_conflict-missing}

-- One request POST topics/:topicId/restore after the other, refused ones included.
unfoldable pub restore_each : JsText → ℕ → Ticket → List ℕ → State → State
unfolding commit_restore
restore_each js now t [] s = s
restore_each js now t (id ∷ ids) s = restore_each js now t ids (commit_restore js now t id s).0

-- The single restore of a row that is there.
pub commit_restore-taken :
    (js : JsText) (now : ℕ) (t : Ticket) (s : State) (l : TopicRow)
    → find_row (topic_in t.team l.id) s.topics ≡ some l
    → l.is_active ≡ false
    → any (λ u. same_name js u.content.name l.content.name) (active_rows t.team s) ≡ true
    → (commit_restore js now t l.id s).0 ≡ s
unfolding commit_restore restore_target
commit_restore-taken js now t s l found shut taken =
    let (c, conflict) =
      find_active_name_conflict-some js (active_rows t.team s) l.content.name taken in
    rw (found, commit_restore, shut, conflict, restore_target) refl

pub commit_restore-free :
    (js : JsText) (now : ℕ) (t : Ticket) (s : State) (l : TopicRow)
    → find_row (topic_in t.team l.id) s.topics ≡ some l
    → l.is_active ≡ false
    → any (λ u. same_name js u.content.name l.content.name) (active_rows t.team s) ≡ false
    → (commit_restore js now t l.id s).0.topics
      ≡ update_rows
          (is_archived_topic t.team l.id)
          (restore_row now t.user (position_after (pos 0) (max_order (active_rows t.team s))))
          s.topics
unfolding commit_restore restore_target
commit_restore-free js now t s l found shut free =
    rw
      (
        found,
        commit_restore,
        shut,
        find_active_name_conflict-missing js (active_rows t.team s) l.content.name free,
        restore_target,
      )
      refl

-- The planned UPDATE is that of the first topic and that of the others.
pub planned-rows :
    (team now user id : ℕ) (p : ℤ) (v : List (ℕ × ℤ)) (rows : List TopicRow)
    → update_rows (is_planned team ((id, p) ∷ v)) (restore_planned now user ((id, p) ∷ v)) rows
      ≡ update_rows
          (is_planned team v)
          (restore_planned now user v)
          (update_rows (is_archived_topic team id) (restore_row now user p) rows)
unfolding update_rows is_planned restore_planned restore_at map_get
planned-rows team now user id p v [] = refl
planned-rows team now user id p v (t ∷ ts) = ground (arith, planned-rows team now user id p v ts)

pub planned-count :
    (team now user id : ℕ) (p : ℤ) (v : List (ℕ × ℤ)) (rows : List TopicRow)
    → count_rows (is_planned team ((id, p) ∷ v)) rows
      ≡ count_rows (is_archived_topic team id) rows
        + count_rows
            (is_planned team v)
            (update_rows (is_archived_topic team id) (restore_row now user p) rows)
unfolding count_rows update_rows is_planned map_get
planned-count team now user id p v [] = refl
planned-count team now user id p v (t ∷ ts) = ground (arith, planned-count team now user id p v ts)

pub planned-nothing :
    (team now user : ℕ) (rows : List TopicRow)
    → (update_rows (is_planned team []) (restore_planned now user []) rows ≡ rows)
      × (count_rows (is_planned team []) rows ≡ 0)
unfolding count_rows update_rows is_planned restore_planned restore_at map_get
planned-nothing team now user [] = (refl, refl)
planned-nothing team now user (t ∷ ts) = (
  ground (arith, planned-nothing team now user ts),
  ground (arith, planned-nothing team now user ts),
)
