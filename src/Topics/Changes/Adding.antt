-- ===== src/Topics/Changes/Adding.antt =====
-- The transactions of POST topics (packages/backend/src/routes/topics.ts) and of
-- topics/assign-defaults, with packages/backend/src/sessions/default-topics.ts.
use Prim.Native.String.{String}
use project_dipstick.Base.{
  ℕ, suc, ◌+◌, Bool, true, false, ◌&&◌, Option, none, some, List, [], ◌∷◌, ◌++◌, ◌==◌, ltb,
  if◌then◌else◌, length, select_rows, count_rows,
}
use project_dipstick.Base.Int.{ℤ, pos, negsuc}
use project_dipstick.Sessions.Defs.{VoteType}
use project_dipstick.Sessions.Store.{template_team}
use project_dipstick.Topics.Defs.{
  JsText, TopicRow, ActionItem, State, TopicReply, TopicBody, reply, audit, active_in, topic_in,
}
use project_dipstick.Topics.Defs as Defs
use project_dipstick.Topics.Gates.{Ticket}
use project_dipstick.Topics.Names.{find_active_name_conflict, sort_rows}
use project_dipstick.Topics.Changes.Positions.{active_rows, max_order, position_after, name_active}

pub record NewTopic : Type 0 where
  pub name : String
  pub prompt : String
  pub vote_type : VoteType
  pub first_session_description : Option String

abbrev pub new_row : ℕ → ℕ → ℤ → NewTopic → TopicRow
new_row id team order n = record {
  id = id;
  team_id = team;
  display_order = order;
  is_active = true;
  is_default = false;
  content = record { name = n.name; prompt = n.prompt; vote_type = n.vote_type; annotation = none };
  first_session_description = n.first_session_description;
  archived_at = none;
  archived_by = none;
  restored_at = none;
  restored_by = none;
  annotation_updated_at = none;
  annotation_updated_by = none;
}

unfoldable pub insert_custom : Ticket → NewTopic → ℤ → State → State × TopicReply
insert_custom t n order s = (
  audit t.user (some t.role) (Defs.custom_added s.next_id) t.team
      (record s { topics = new_row s.next_id t.team order n ∷ s.topics; next_id = suc s.next_id }),
  reply 201 (Defs.added s.next_id order),
)

-- POST topics.
unfoldable pub commit_add : JsText → Ticket → NewTopic → State → State × TopicReply
unfolding find_active_name_conflict insert_custom position_after
commit_add js t n s = elim (find_active_name_conflict js (active_rows t.team s) n.name) [
  | some c ↦ (s, name_active c)
  | none ↦ insert_custom t n (position_after (negsuc 0) (max_order (active_rows t.team s))) s
]

-- The rows that copyCanonicalDefaults selects.
abbrev pub is_canonical_default : TopicRow → Bool
is_canonical_default t = (t.team_id == template_team && t.is_default) && t.is_active

-- The annotation is not copied.
abbrev pub copy_row : ℕ → ℕ → ℕ → TopicRow → TopicRow
copy_row id team n t = record {
  id = id;
  team_id = team;
  display_order = pos n;
  is_active = true;
  is_default = t.is_default;
  content = record {
    name = t.content.name;
    prompt = t.content.prompt;
    vote_type = t.content.vote_type;
    annotation = none;
  };
  first_session_description = t.first_session_description;
  archived_at = none;
  archived_by = none;
  restored_at = none;
  restored_by = none;
  annotation_updated_at = none;
  annotation_updated_by = none;
}

-- Row n of the window, with keys from `id` on.
unfoldable pub copy_rows : ℕ → ℕ → ℕ → List TopicRow → List TopicRow
copy_rows id team n [] = []
copy_rows id team n (t ∷ ts) = copy_row id team n t ∷ copy_rows (suc id) team (suc n) ts

-- copyCanonicalDefaults: the rows to insert.
unfoldable pub copy_canonical_defaults : ℕ → State → List TopicRow
unfolding copy_rows sort_rows
copy_canonical_defaults team s =
    copy_rows s.next_id team 1 (sort_rows (select_rows is_canonical_default s.topics))

-- The failure's row is written after the rollback, when its INSERT succeeds.
unfoldable pub finish_assign : Bool → Ticket → List TopicRow → State → State × TopicReply
finish_assign audit_answers t [] s = (
  (if audit_answers then audit t.user (some t.role) Defs.defaults_assign_failed t.team s else s),
  reply 500 Defs.default_topics_unavailable,
)
finish_assign audit_answers t (r ∷ rs) s = (
  audit t.user (some t.role) (Defs.defaults_assigned (length (r ∷ rs))) t.team
      (record s { topics = (r ∷ rs) ++ s.topics; next_id = s.next_id + length (r ∷ rs) }),
  reply 201 (Defs.assigned (length (r ∷ rs))),
)

-- POST topics/assign-defaults.
unfoldable pub commit_assign : Bool → Ticket → State → State × TopicReply
unfolding finish_assign copy_canonical_defaults
commit_assign audit_answers t s =
    if ltb 0 (count_rows (active_in t.team) s.topics)
    then (s, reply 409 Defs.team_has_active_topics)
    else finish_assign audit_answers t (copy_canonical_defaults t.team s) s
