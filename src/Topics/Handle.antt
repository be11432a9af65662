-- ===== src/Topics/Handle.antt =====
-- A request at a topic route (packages/backend/src/routes/topics.ts): the checks that all routes
-- share, those of the route itself, and its transaction. Another request may commit between the
-- checks and the transaction, so `commit` stands alone.
use Prim.Native.String.{String}
use project_dipstick.Base.{ℕ, Bool, not, Option, none, some, List, if◌then◌else◌, find_row}
use project_dipstick.Topics.Defs.{
  JsText, World, Endpoint, State, TopicRow, TopicReply, reply, topic_in,
}
use project_dipstick.Topics.Defs as Defs
use project_dipstick.Topics.Gates.{Gate, stopped, passed, then_gate, Ticket, check_request}
use project_dipstick.Topics.Bodies.{
  AddBody, OrderBody, AnnotationBody, Validated, invalid, valid, validate_add_body,
  validate_order_body, validate_annotation_body,
}
use project_dipstick.Topics.Changes.{
  NewTopic, commit_add, commit_assign, commit_archive, commit_restore, commit_annotate,
}
use project_dipstick.Topics.BulkRestore.{commit_restore_defaults}
use project_dipstick.Topics.Reorder.{commit_reorder}

-- A topic id is `none` where the path's text is no canonical UUID.
pub data TopicRequest : Type 0 where
  adds : AddBody → TopicRequest
  assigns restores_defaults : TopicRequest
  archives : Option ℕ → Bool → TopicRequest
  restores : Option ℕ → TopicRequest
  reorders : OrderBody → TopicRequest
  annotates : Option ℕ → AnnotationBody → TopicRequest

unfoldable pub endpoint_of : TopicRequest → Endpoint
endpoint_of (adds b) = Defs.add
endpoint_of assigns = Defs.assign_defaults
endpoint_of restores_defaults = Defs.restore_defaults
endpoint_of (archives topic confirmed) = Defs.archive
endpoint_of (restores topic) = Defs.restore
endpoint_of (reorders b) = Defs.reorder
endpoint_of (annotates topic b) = Defs.annotate

-- What a request asks of its transaction.
pub data Change : Type 0 where
  add : NewTopic → Change
  assign_defaults restore_defaults : Change
  archive : ℕ → Bool → Change
  restore : ℕ → Change
  reorder : List ℕ → Change
  annotate : ℕ → Option String → Change

unfoldable pub check_active_row : Option TopicRow → Change → State → Gate Change
check_active_row none c s = stopped s (reply 404 Defs.topic_not_found)
check_active_row (some r) c s =
    if not r.is_active then stopped s (reply 422 Defs.topic_already_archived) else passed s c

-- checkTopicExistsAndActive.
unfoldable pub check_topic_active : Ticket → Option ℕ → (ℕ → Change) → State → Gate Change
unfolding check_active_row
check_topic_active t none c s = stopped s (reply 404 Defs.topic_not_found)
check_topic_active t (some topic) c s =
    check_active_row (find_row (topic_in t.team topic) s.topics) (c topic) s

unfoldable pub check_archived_row : Option TopicRow → Change → State → Gate Change
check_archived_row none c s = stopped s (reply 404 Defs.topic_not_found)
check_archived_row (some r) c s =
    if r.is_active then stopped s (reply 422 Defs.topic_already_active) else passed s c

-- checkTopicExistsAndArchived.
unfoldable pub check_topic_archived : Ticket → Option ℕ → (ℕ → Change) → State → Gate Change
unfolding check_archived_row
check_topic_archived t none c s = stopped s (reply 404 Defs.topic_not_found)
check_topic_archived t (some topic) c s =
    check_archived_row (find_row (topic_in t.team topic) s.topics) (c topic) s

unfoldable pub add_change : Validated NewTopic → State → Gate Change
add_change (invalid f) s = stopped s (reply 422 (Defs.validation_failed f))
add_change (valid n) s = passed s (add n)

unfoldable pub reorder_change : Option (List ℕ) → State → Gate Change
reorder_change none s = stopped s (reply 422 Defs.invalid_topic_order)
reorder_change (some ids) s = passed s (reorder ids)

-- The body is checked before the topic.
unfoldable pub annotate_change : Ticket → Option ℕ → Option (Option String) → State → Gate Change
unfolding check_topic_active
annotate_change t topic none s = stopped s (reply 422 Defs.invalid_annotation)
annotate_change t topic (some a) s = check_topic_active t topic (λ id. annotate id a) s

unfoldable pub prepare : JsText → TopicRequest → Ticket → State → Gate Change
unfolding add_change reorder_change annotate_change check_topic_active check_topic_archived
    validate_add_body validate_order_body validate_annotation_body
prepare js (adds b) t s = add_change (validate_add_body js b) s
prepare js assigns t s = passed s assign_defaults
prepare js restores_defaults t s = passed s restore_defaults
prepare js (archives topic confirmed) t s =
    check_topic_active t topic (λ id. archive id confirmed) s
prepare js (restores topic) t s = check_topic_archived t topic restore s
prepare js (reorders b) t s = reorder_change (validate_order_body b) s
prepare js (annotates topic b) t s = annotate_change t topic (validate_annotation_body js b) s

unfoldable pub commit : JsText → World → Ticket → Change → State → State × TopicReply
unfolding commit_add commit_assign commit_archive commit_restore commit_restore_defaults
    commit_reorder commit_annotate
commit js w t (add n) s = commit_add js t n s
commit js w t assign_defaults s = commit_assign w.audit_answers t s
commit js w t (archive topic confirmed) s = commit_archive w.now t topic confirmed s
commit js w t (restore topic) s = commit_restore js w.now t topic s
commit js w t restore_defaults s = commit_restore_defaults js w.now t s
commit js w t (reorder ids) s = commit_reorder t ids s
commit js w t (annotate topic a) s = commit_annotate js w.now t topic a s

-- Both rounds of checks.
pub record Accepted : Type 0 where
  pub ticket : Ticket
  pub change : Change

unfoldable pub accept_request : JsText → World → ℕ → Option ℕ → TopicRequest → State → Gate Accepted
unfolding check_request prepare endpoint_of
accept_request js w user team q s =
    then_gate (check_request w (endpoint_of q) user team s) (λ s1 t.
      then_gate (prepare js q t s1) (λ s2 c. passed s2 (record { ticket = t; change = c })))

abbrev pub run_gate : JsText → World → Gate Accepted → State × TopicReply
run_gate js w (stopped s r) = (s, r)
run_gate js w (passed s a) = commit js w a.ticket a.change s

unfoldable pub handle : JsText → World → ℕ → Option ℕ → TopicRequest → State → State × TopicReply
unfolding accept_request commit
handle js w user team q s = run_gate js w (accept_request js w user team q s)
