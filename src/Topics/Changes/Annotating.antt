-- ===== src/Topics/Changes/Annotating.antt =====
-- The transaction of PUT topics/:topicId/annotation (packages/backend/src/routes/topics.ts).
use Prim.Native.String.{String}
use project_dipstick.Base.{
  ℕ, Bool, true, false, not, Option, none, some, if◌then◌else◌, find_row, update_rows,
}
use project_dipstick.Topics.Defs.{
  JsText, TopicRow, ActionItem, State, TopicReply, TopicBody, reply, audit, active_in, topic_in,
}
use project_dipstick.Topics.Defs as Defs
use project_dipstick.Topics.Changes.Archiving.{is_active_topic}
use project_dipstick.Topics.Gates.{Ticket}
use text.Mathlib.Text as Text

-- `===` on the annotation, absent or a text.
unfoldable pub same_annotation : Option String → Option String → Bool
same_annotation none none = true
same_annotation none (some b) = false
same_annotation (some a) none = false
same_annotation (some a) (some b) = Text.◌==◌ a b

abbrev pub annotate_row : ℕ → ℕ → Option String → TopicRow → TopicRow
annotate_row now user a t = record t {
  content = record t.content { annotation = a };
  annotation_updated_at = some now;
  annotation_updated_by = some user;
}

unfoldable pub annotation_length : JsText → Option String → ℕ
annotation_length js none = 0
annotation_length js (some a) = js.units a

abbrev is_set : Option String → Bool
is_set none = false
is_set (some a) = true

-- toAnnotationResponse, without the display name of the user.
abbrev pub annotation_response : TopicRow → TopicReply
annotation_response r =
    reply 200
      (Defs.annotation_of r.id r.content.annotation r.annotation_updated_at r.annotation_updated_by)

-- PUT topics/:topicId/annotation. The transaction reads the row again and locks
-- it, so that the UPDATE finds it.
unfoldable pub commit_annotate :
    JsText → ℕ → Ticket → ℕ → Option String → State → State × TopicReply
unfolding same_annotation annotation_length
commit_annotate js now t topic a s = elim (find_row (topic_in t.team topic) s.topics) [
  | none ↦ (s, reply 404 Defs.topic_not_found)
  | some r ↦
      if not r.is_active
      then (s, reply 422 Defs.topic_already_archived)
      else if same_annotation r.content.annotation a
      then (s, annotation_response r)
      else (
        audit t.user (some t.role)
            (Defs.annotation_updated topic (is_set a) (annotation_length js a)) t.team
            (record s {
              topics =
                  update_rows (is_active_topic t.team topic) (annotate_row now t.user a) s.topics;
            }),
        annotation_response (annotate_row now t.user a r),
      )
]
