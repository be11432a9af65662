-- ===== src/Sessions/Snapshot.antt =====
-- The snapshot of a team's active topics (packages/backend/src/sessions/session-topic-snapshot.ts):
-- one INSERT ... SELECT with row_number() OVER (ORDER BY display_order, id).
use project_dipstick.Base.{
  ℕ, suc, ◌+◌, Bool, ◌&&◌, ◌||◌, none, some, List, [], ◌∷◌, ◌++◌, map, ◌==◌, ltb, leb,
  if◌then◌else◌, length, any, select_rows,
}
use project_dipstick.Sessions.Defs.{Topic, SessionTopic, TopicPhase}
use project_dipstick.Sessions.Store.{Store, find_session}

-- The order of the window: by display_order, then by id.
unfoldable pub precedes : Topic → Topic → Bool
precedes a b =
    ltb a.display_order b.display_order || (a.display_order == b.display_order && leb a.id b.id)

unfoldable pub insert_topic : Topic → List Topic → List Topic
insert_topic t [] = t ∷ []
insert_topic t (u ∷ us) = if precedes t u then t ∷ u ∷ us else u ∷ insert_topic t us

unfoldable pub sort_topics : List Topic → List Topic
sort_topics [] = []
sort_topics (t ∷ ts) = insert_topic t (sort_topics ts)

unfoldable pub active_topics : ℕ → Store → List Topic
active_topics team s = select_rows (λ t. t.team_id == team && t.is_active) s.topics

-- Row n of the result is row n of the window; keys come from `next_id` on.
unfoldable pub number_topics : ℕ → ℕ → ℕ → List Topic → List SessionTopic
number_topics id session n [] = []
number_topics id session n (t ∷ ts) =
    record {
      id = id;
      session_id = session;
      topic_id = t.id;
      display_order = n;
      content = t.content;
      phase = TopicPhase.waiting;
      revealed_at = none;
      completed_at = none;
    }
    ∷ number_topics (suc id) session (suc n) ts

-- The unique keys (session_id, display_order) and (session_id, topic_id).
abbrev pub collides : SessionTopic → SessionTopic → Bool
collides a b =
    a.session_id == b.session_id && (a.display_order == b.display_order || a.topic_id == b.topic_id)

unfoldable pub has_collision : List SessionTopic → List SessionTopic → Bool
has_collision news olds = any (λ a. any (collides a) olds) news

pub data Snapshot : Type 0 where
  -- No active topic: NoActiveTopicsError.
  nothing_active : Snapshot
  -- A unique key is violated, which the caller answers as a failed snapshot.
  collision : Snapshot
  taken : Store → List ℕ → Snapshot

unfoldable pub insert_rows : List SessionTopic → Store → Snapshot
insert_rows [] s = nothing_active
insert_rows (r ∷ rs) s =
    if has_collision (r ∷ rs) s.session_topics
    then collision
    else taken
        (record s {
          session_topics = s.session_topics ++ (r ∷ rs);
          next_id = s.next_id + length (r ∷ rs);
        })
        (map (λ t. t.topic_id) (r ∷ rs))

-- The team is that of the session's row, which the statement joins.
unfoldable pub snapshot_session_topics : ℕ → Store → Snapshot
unfolding insert_rows number_topics active_topics sort_topics
snapshot_session_topics session s = elim (find_session session s.sessions) [
  | none ↦ nothing_active
  | some r ↦
      insert_rows (number_topics s.next_id session 1 (sort_topics (active_topics r.team_id s))) s
]
