-- ===== src/Topics/Examples/Runs.antt =====
-- The theorems on the topic routes (packages/backend/src/routes/topics.ts), applied, and runs.

use project_dipstick.Base.{
  ℕ, true, false, ◌≡◌, ◌⊎◌, ◌≤◌, refl, some, [], ◌∷◌, arith, ◌==◌, find_row, count_rows,
  select_rows, update_rows, length, map,
}
use project_dipstick.Base.Int.{pos, negate, is_negative}
use project_dipstick.Topics.Defs.{
  JsText, World, State, TopicRow, TopicReply, reply, active_in, topic_in,
}
use project_dipstick.Topics.Defs as Defs
use project_dipstick.Topics.Names.{sort_rows}
use project_dipstick.Topics.Changes.{active_rows, max_order, position_after, commit_assign}
use project_dipstick.Topics.BulkRestore.{archived_defaults, commit_restore_defaults}
use project_dipstick.Topics.Reorder.{is_current_set, commit_reorder}
use project_dipstick.Topics.Bodies.{entries, validate_order_body}
use project_dipstick.Topics.Handle.{
  archive, reorder, restore_defaults, commit, archives, endpoint_of, Accepted, handle,
}
use project_dipstick.Topics.Tidy.{IsTidy}
use project_dipstick.Topics.Examples.{plain_text, two_teams, two_teams-IsTidy, row, calm, ticket}
use project_dipstick.Topics.Invariant.{commit-IsTidy}
use project_dipstick.Topics.Sequence.{restore_each}
use project_dipstick.Topics.Parity.{commit_restore_defaults-restore_each}
use project_dipstick.Topics.Accepting.{current_ids}
use project_dipstick.Topics.LastArchived.{active_count}
use project_dipstick.Topics.Checks.{is_permitted}
use project_dipstick.Topics.NewOrder.{commit_reorder-current_ids}
use project_dipstick.Topics.LastActive.{commit-active_count}
use project_dipstick.Topics.ThereAndBack.{gone, back, back-find_row}
use project_dipstick.Topics.Authority.{handle-is_permitted}
use project_dipstick.Topics.Assigned.{shown, numbered, template_topics, commit_assign-shown}

routes : Unit {0}
unfolding handle commit find_row count_rows select_rows update_rows sort_rows max_order
    position_after negate is_negative
routes = tt

-- The facilitator archives a topic; the last one stays.
archive_test :
    (handle plain_text calm 1 (some 7) (archives (some 10) true) two_teams).1
    ≡ reply 200 (Defs.archived_topic 10 60)
unfolding routes
archive_test = refl

last_test :
    (commit plain_text calm
      (ticket 7)
      (archive 11 true)
      (commit plain_text calm (ticket 7) (archive 10 true) two_teams).0).1
    ≡ reply 409 Defs.topic_last_active
unfolding routes
last_test = refl

-- The name of topic 13 is taken.
restore_defaults_test :
    (commit plain_text calm (ticket 7) restore_defaults two_teams).1
    ≡ reply 200 (Defs.restored_defaults ((12, "Fun", pos 2) ∷ []) ((13, "Speed") ∷ []))
unfolding routes
restore_defaults_test = refl

reorder_test :
    current_ids 7 (commit plain_text calm (ticket 7) (reorder (11 ∷ 10 ∷ [])) two_teams).0
    ≡ 11 ∷ 10 ∷ []
unfolding routes
reorder_test = refl

commit-IsTidy_example :
    IsTidy plain_text true (commit plain_text calm (ticket 7) restore_defaults two_teams).0
commit-IsTidy_example =
    commit-IsTidy plain_text true calm (ticket 7) restore_defaults two_teams (two_teams-IsTidy true)

same_ids : is_current_set (11 ∷ 10 ∷ []) (current_ids 7 two_teams) ≡ true
unfolding routes
same_ids = refl

valid_order : validate_order_body (entries (some 11 ∷ some 10 ∷ [])) ≡ some (11 ∷ 10 ∷ [])
unfolding validate_order_body
valid_order = refl

commit_reorder-current_ids_example :
    ((commit_reorder (ticket 7) (11 ∷ 10 ∷ []) two_teams).1.code ≡ 200)
    × (current_ids 7 (commit_reorder (ticket 7) (11 ∷ 10 ∷ []) two_teams).0 ≡ 11 ∷ 10 ∷ [])
commit_reorder-current_ids_example =
    commit_reorder-current_ids plain_text (ticket 7) (entries (some 11 ∷ some 10 ∷ []))
      (11 ∷ 10 ∷ []) two_teams (two_teams-IsTidy false) valid_order same_ids

commit_restore_defaults-restore_each_example :
    ((commit_restore_defaults plain_text 60 (ticket 7) two_teams).1.code ≡ 200)
    × ((commit_restore_defaults plain_text 60 (ticket 7) two_teams).0.topics
        ≡ (restore_each plain_text 60
            (ticket 7)
            (map (λ r. r.id) (sort_rows (archived_defaults 7 two_teams)))
            two_teams).topics)
commit_restore_defaults-restore_each_example =
    commit_restore_defaults-restore_each plain_text 60 (ticket 7) two_teams (two_teams-IsTidy false)

handle-is_permitted_example :
    ((handle plain_text calm 1 (some 7) (archives (some 10) true) two_teams).0.topics
      ≡ two_teams.topics)
    ⊎ ((a : Accepted) × (s1 : State) × ((a.ticket.team ≡ 7)
          × (calm.redis_answers ≡ true)
          × (is_permitted Defs.archive 1 7 two_teams ≡ true))
        × (s1.topics ≡ two_teams.topics)
        × ((handle plain_text calm 1 (some 7) (archives (some 10) true) two_teams).0
            ≡ (commit plain_text calm a.ticket a.change s1).0))
unfolding endpoint_of
handle-is_permitted_example =
    handle-is_permitted plain_text calm 1 7 (archives (some 10) true) two_teams

one_active : 1 ≤ active_count 7 two_teams
unfolding count_rows
one_active = omega arith

commit-active_count_example :
    1 ≤ active_count 7 (commit plain_text calm (ticket 7) (archive 10 true) two_teams).0
commit-active_count_example =
    commit-active_count plain_text true calm (ticket 7) (archive 10 true) 7 two_teams
      (two_teams-IsTidy true) one_active

found_topic : find_row (topic_in 7 10) two_teams.topics ≡ some (row 10 7 0 true false "Safety")
unfolding find_row
found_topic = refl

two_active : 2 ≤ count_rows (active_in 7) two_teams.topics
unfolding count_rows
two_active = omega arith

back-find_row_example :
    ((back plain_text calm calm (ticket 7) 10 two_teams).1.code ≡ 200)
    × (find_row (topic_in 7 10) (back plain_text calm calm (ticket 7) 10 two_teams).0.topics
        ≡ some (record (row 10 7 0 true false "Safety") {
          display_order =
              position_after
                (pos 0)
                (max_order (active_rows 7 (gone plain_text calm (ticket 7) 10 two_teams)));
          is_active = true;
          archived_at = some 60;
          archived_by = some 1;
          restored_at = some 60;
          restored_by = some 1;
        }))
    × ((k id : ℕ)
        → (id == 10) ≡ false
        → find_row (topic_in k id) (back plain_text calm calm (ticket 7) 10 two_teams).0.topics
          ≡ find_row (topic_in k id) two_teams.topics)
back-find_row_example =
    back-find_row plain_text calm calm (ticket 7) 10 two_teams (row 10 7 0 true false "Safety")
      (two_teams-IsTidy true) found_topic refl two_active

nothing_active : count_rows (active_in 8) two_teams.topics ≡ 0
unfolding count_rows
nothing_active = refl

template_full : 1 ≤ length (template_topics two_teams)
unfolding routes
template_full = omega arith

commit_assign-shown_example :
    ((commit_assign true (ticket 8) two_teams).1.code ≡ 201)
    × (shown (sort_rows (active_rows 8 (commit_assign true (ticket 8) two_teams).0))
        ≡ numbered 1 (template_topics two_teams))
commit_assign-shown_example =
    commit_assign-shown true (ticket 8) two_teams nothing_active template_full
