-- ===== src/Topics/Names.antt =====
-- The rule on names and its two uses (packages/shared/src/types/topic.ts):
-- normalizeTopicNameForMatch, findActiveNameConflict and planDefaultRestore.
use Prim.Native.String.{String}
use project_dipstick.Base.{
  ℕ, Bool, ◌&&◌, ◌||◌, Option, none, some, List, [], ◌∷◌, map, if◌then◌else◌, any, ltb,
}
use project_dipstick.Base as Base
use project_dipstick.Base.Int.{lt_int, eq_int}
use project_dipstick.Topics.Defs.{JsText, TopicRow}
use text.Mathlib.Text.{◌==◌}

-- normalizeTopicNameForMatch.
unfoldable pub topic_key : JsText → String → String
topic_key js name = js.to_lower (js.trim name)

unfoldable pub same_name : JsText → String → String → Bool
unfolding topic_key
same_name js a b = topic_key js a == topic_key js b

-- By display_order, then by id.
unfoldable pub comes_before : TopicRow → TopicRow → Bool
unfolding lt_int eq_int
comes_before a b =
    lt_int a.display_order b.display_order
    || (eq_int a.display_order b.display_order && ltb a.id b.id)

unfoldable pub better : Option TopicRow → TopicRow → Option TopicRow
unfolding comes_before
better none t = some t
better (some b) t = if comes_before t b then some t else some b

-- The loop of findActiveNameConflict, with `best` so far.
unfoldable pub best_conflict : JsText → String → Option TopicRow → List TopicRow → Option TopicRow
unfolding same_name better
best_conflict js name best [] = best
best_conflict js name best (t ∷ ts) =
    best_conflict js name (if same_name js t.content.name name then better best t else best) ts

unfoldable pub find_active_name_conflict : JsText → List TopicRow → String → Option TopicRow
unfolding best_conflict
find_active_name_conflict js rows name = best_conflict js name none rows

unfoldable pub insert_row : TopicRow → List TopicRow → List TopicRow
unfolding comes_before
insert_row t [] = t ∷ []
insert_row t (u ∷ us) = if comes_before u t then u ∷ insert_row t us else t ∷ u ∷ us

unfoldable pub sort_rows : List TopicRow → List TopicRow
unfolding insert_row
sort_rows [] = []
sort_rows (t ∷ ts) = insert_row t (sort_rows ts)

pub record Plan : Type 0 where
  pub restore : List TopicRow
  pub skipped : List TopicRow

abbrev pub plan_restore : TopicRow → Plan → Plan
plan_restore t p = record p { restore = t ∷ p.restore }

abbrev pub plan_skip : TopicRow → Plan → Plan
plan_skip t p = record p { skipped = t ∷ p.skipped }

abbrev pub has_key : String → List String → Bool
has_key k seen = any (λ j. j == k) seen

-- The walk of planDefaultRestore over the sorted rows, with the keys seen so far.
unfoldable pub walk_defaults : JsText → List String → List TopicRow → Plan
unfolding topic_key
walk_defaults js seen [] = record { restore = []; skipped = [] }
walk_defaults js seen (t ∷ ts) = elim (has_key (topic_key js t.content.name) seen) [
  | Base.true ↦ plan_skip t (walk_defaults js seen ts)
  | Base.false ↦ plan_restore t (walk_defaults js (topic_key js t.content.name ∷ seen) ts)
]

-- planDefaultRestore.
unfoldable pub plan_default_restore : JsText → List TopicRow → List String → Plan
unfolding sort_rows walk_defaults topic_key
plan_default_restore js archived names =
    walk_defaults js (map (λ n. topic_key js n) names) (sort_rows archived)
