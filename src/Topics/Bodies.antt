-- ===== src/Topics/Bodies.antt =====
-- The validation of the request bodies of the topic routes (packages/backend/src/routes/topics.ts):
-- validateAddCustomTopicBody, validateReorderTopicsBody and validateAnnotationBody, with
-- normalizeAnnotation of packages/shared/src/types/topic.ts.
-- An entry of an order is `none` where it is no text of a canonical UUID.
use Prim.Native.String.{String}
use project_dipstick.Base.{
  ℕ, ◌||◌, Option, none, some, List, [], ◌∷◌, ◌==◌, ltb, if◌then◌else◌, length,
}
use project_dipstick.Sessions.Defs.{VoteType}
use project_dipstick.Topics.Defs.{JsText, Field}
use project_dipstick.Topics.Defs as Defs
use project_dipstick.Topics.Changes.{NewTopic}
use project_dipstick.Topics.Reorder.{distinct_ids}
use text.Mathlib.Text as Text

-- A value of a JSON object at a name.
pub data Value : Type 0 where
  absent null_value other_value : Value
  text_value : String → Value

pub record AddBody : Type 0 where
  pub name : Value
  pub prompt : Value
  pub vote_type : Value
  pub first_session_description : Value

pub data Validated (T : Type 0) : Type 0 where
  invalid : Field → Validated T
  valid : T → Validated T

-- A required text, trimmed, of 1 to `limit` units.
unfoldable pub required_text : JsText → ℕ → Field → Value → Validated String
required_text js limit f absent = invalid f
required_text js limit f null_value = invalid f
required_text js limit f other_value = invalid f
required_text js limit f (text_value s) =
    if js.units (js.trim s) == 0 || ltb limit (js.units (js.trim s))
    then invalid f
    else valid (js.trim s)

unfoldable pub vote_type_of : Value → Validated VoteType
vote_type_of absent = invalid Defs.vote_type
vote_type_of null_value = invalid Defs.vote_type
vote_type_of other_value = invalid Defs.vote_type
vote_type_of (text_value s) =
    if Text.◌==◌ s "finger"
    then valid VoteType.finger
    else if Text.◌==◌ s "roman"
    then valid VoteType.roman
    else if Text.◌==◌ s "modified_roman"
    then valid VoteType.modified_roman
    else invalid Defs.vote_type

-- Neither trimmed nor required.
unfoldable pub description_of : JsText → Value → Validated (Option String)
description_of js absent = valid none
description_of js null_value = valid none
description_of js other_value = invalid Defs.first_session_description
description_of js (text_value s) =
    if ltb 500 (js.units s) then invalid Defs.first_session_description else valid (some s)

abbrev pub and_then : {T U : Type 0} → Validated T → (T → Validated U) → Validated U
and_then (invalid f) k = invalid f
and_then (valid t) k = k t

-- The first field that fails is the one named.
unfoldable pub validate_add_body : JsText → AddBody → Validated NewTopic
unfolding required_text vote_type_of description_of
validate_add_body js b = and_then (required_text js 100 Defs.name b.name) (λ n.
    and_then (required_text js 500 Defs.prompt b.prompt) (λ p.
      and_then (vote_type_of b.vote_type) (λ v.
        and_then (description_of js b.first_session_description) (λ d.
          valid (record { name = n; prompt = p; vote_type = v; first_session_description = d })))))

pub data OrderBody : Type 0 where
  no_object no_array : OrderBody
  entries : List (Option ℕ) → OrderBody

-- MAX_REORDER_TOPICS.
abbrev pub max_reorder_topics : ℕ
max_reorder_topics = 200

unfoldable pub all_ids : List (Option ℕ) → Option (List ℕ)
all_ids [] = some []
all_ids (none ∷ es) = none
all_ids (some x ∷ es) = elim (all_ids es) [ none ↦ none | some xs ↦ some (x ∷ xs) ]

unfoldable pub without_repeats : Option (List ℕ) → Option (List ℕ)
unfolding distinct_ids
without_repeats none = none
without_repeats (some ids) = if length (distinct_ids ids) == length ids then some ids else none

unfoldable pub validate_order_body : OrderBody → Option (List ℕ)
unfolding all_ids without_repeats
validate_order_body no_object = none
validate_order_body no_array = none
validate_order_body (entries es) =
    if ltb (length es) 1 || ltb max_reorder_topics (length es)
    then none
    else without_repeats (all_ids es)

pub data AnnotationBody : Type 0 where
  no_record : AnnotationBody
  with_annotation : Value → AnnotationBody

-- MAX_ANNOTATION_LENGTH.
abbrev pub max_annotation_length : ℕ
max_annotation_length = 500

unfoldable pub normalize_annotation : JsText → String → String
normalize_annotation js s = js.trim (js.unify_newlines s)

-- The outer option tells a valid body; an empty text clears the annotation.
unfoldable pub check_annotation : JsText → String → Option (Option String)
check_annotation js a =
    if js.has_disallowed a || js.has_unpaired_surrogate a
    then none
    else if ltb max_annotation_length (js.units a)
    then none
    else if js.units a == 0
    then some none
    else some (some a)

unfoldable pub validate_annotation_body : JsText → AnnotationBody → Option (Option String)
unfolding normalize_annotation check_annotation
validate_annotation_body js no_record = none
validate_annotation_body js (with_annotation absent) = none
validate_annotation_body js (with_annotation null_value) = none
validate_annotation_body js (with_annotation other_value) = none
validate_annotation_body js (with_annotation (text_value s)) =
    check_annotation js (normalize_annotation js s)
