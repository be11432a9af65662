-- ===== src/Topics/Changes/Positions.antt =====
-- The active topics of a team, the position that follows theirs, and the reply to a name in use
-- (packages/backend/src/routes/topics.ts).

use project_dipstick.Base.{ℕ, Option, none, some, List, [], ◌∷◌, select_rows}
use project_dipstick.Base.Int.{ℤ, add_one, max_int}
use project_dipstick.Topics.Defs.{
  JsText, TopicRow, ActionItem, State, TopicReply, TopicBody, reply, audit, active_in, topic_in,
}
use project_dipstick.Topics.Defs as Defs

abbrev pub active_rows : ℕ → State → List TopicRow
active_rows team s = select_rows (active_in team) s.topics

unfoldable pub or_max : ℤ → Option ℤ → ℤ
unfolding max_int
or_max a none = a
or_max a (some b) = max_int a b

-- MAX(display_order).
unfoldable pub max_order : List TopicRow → Option ℤ
unfolding or_max
max_order [] = none
max_order (t ∷ ts) = some (or_max t.display_order (max_order ts))

-- COALESCE(MAX(display_order), x) + 1.
unfoldable pub position_after : ℤ → Option ℤ → ℤ
unfolding add_one
position_after x none = add_one x
position_after x (some m) = add_one m

-- sendTopicNameActive.
abbrev pub name_active : TopicRow → TopicReply
name_active t = reply 409 (Defs.topic_name_active t.id t.content.name)
