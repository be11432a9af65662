-- ===== src/Topics/Parity.antt =====
-- The walk of planDefaultRestore (packages/shared/src/types/topic.ts) beside the single restores.
use Prim.Native.String.{String}
use project_dipstick.Base.{
  ℕ, true, false, ◌≡◌, refl, sym, ◌∙◌, Option, none, some, List, [], ◌∷◌, arith, ◌==◌, ==_refl, All,
  any, find_row, map, update_rows, length, count_rows,
}
use project_dipstick.Base.Int.{ℤ, pos, add_one}
use project_dipstick.Base.Pairs.{
  Pairwise, All-follows, All-select_rows, Pairwise-select_rows, Pairwise-follows, All-always,
}
use project_dipstick.Topics.Defs.{JsText, TopicRow, State, topic_in}
use project_dipstick.Topics.Gates.{Ticket}
use project_dipstick.Topics.Names.{
  Plan, topic_key, same_name, has_key, sort_rows, walk_defaults, plan_default_restore,
}
use project_dipstick.Topics.Changes.{active_rows, max_order, position_after}
use project_dipstick.Topics.BulkRestore.{
  is_archived_default, archived_defaults, or_zero, number_from, is_planned, restore_planned,
  restore_plan, finish_restore, commit_restore_defaults,
}
use project_dipstick.Topics.Tidy.{AreApart, IsTidy, clashes-ids}
use project_dipstick.Topics.Copying.{All-sort_rows, Pairwise-sort_rows}
use project_dipstick.Topics.Targets.{find_each}
use project_dipstick.Topics.Sequence.{restore_each, planned-nothing}
use project_dipstick.Topics.Walk.{HaveOtherIds, IsWaiting, next_position, walk_ids, walk-IsMatched}

Agrees-start :
    (js : JsText) (rows : List TopicRow) (name : String)
    → has_key (topic_key js name) (map (λ n. topic_key js n) (map (λ r. r.content.name) rows))
      ≡ any (λ u. same_name js u.content.name name) rows
unfolding same_name
Agrees-start js [] name = refl
Agrees-start js (r ∷ rs) name = ground (arith, Agrees-start js rs name)

defaults-IsWaiting :
    (js : JsText) (team : ℕ) (s : State)
    → IsTidy js false s
    → All (IsWaiting team s) (sort_rows (archived_defaults team s))
defaults-IsWaiting js team s tidy = All-sort_rows (IsWaiting team s) (archived_defaults team s) (
    All-select_rows (IsWaiting team s) (is_archived_default team) s.topics (
      All-follows
        (λ l. (l.team_id == team) ≡ true → find_row (topic_in team l.id) s.topics ≡ some l)
        (λ l. is_archived_default team l ≡ true → IsWaiting team s l) s.topics
        (λ l h e. (h (ground (arith, e)), ground (arith, e)))
        (find_each js false team s.topics tidy.apart)))

defaults-ids :
    (js : JsText) (team : ℕ) (s : State)
    → IsTidy js false s
    → Pairwise HaveOtherIds (sort_rows (archived_defaults team s))
defaults-ids js team s tidy =
    Pairwise-sort_rows HaveOtherIds (archived_defaults team s) (λ x y h. ground (arith, h))
      (Pairwise-select_rows HaveOtherIds (is_archived_default team) s.topics (
        Pairwise-follows {0, 0, 0, 0} HaveOtherIds (AreApart js false) (λ t. Unit) s.topics
          (λ x y _ _ h. clashes-ids js false x y h) (All-always (λ t. Unit) s.topics (λ t. tt))
          tidy.apart))

start-position : (m : Option ℤ) → add_one (or_zero m) ≡ position_after (pos 0) m
unfolding position_after
start-position none = refl
start-position (some m) = refl

finish_restore-matched :
    (now : ℕ) (t : Ticket) (p : ℤ) (chosen skipped : List TopicRow) (s : State)
    (rows : List TopicRow)
    → update_rows
        (is_planned t.team (number_from p chosen))
        (restore_planned now t.user (number_from p chosen))
        s.topics
      ≡ rows
    → count_rows (is_planned t.team (number_from p chosen)) s.topics ≡ length chosen
    → let plan : Plan = record { restore = chosen; skipped = skipped } in
      ((finish_restore now t p plan s).1.code ≡ 200)
      × ((finish_restore now t p plan s).0.topics ≡ rows)
unfolding finish_restore restore_plan number_from
finish_restore-matched now t p [] skipped s rows e c =
    (refl, sym ((planned-nothing t.team now t.user s.topics).0) ∙ e)
finish_restore-matched now t p (r ∷ rs) skipped s rows e c =
    rw (c, restore_plan, ==_refl (length (r ∷ rs))) (refl, e)

-- On a table that keeps its rules, the restore of the defaults succeeds and leaves the topics as
-- the single restores of the archived defaults leave them, run one after the other by former
-- position and id.
pub commit_restore_defaults-restore_each :
    (js : JsText) (now : ℕ) (t : Ticket) (s : State)
    → IsTidy js false s
    → ((commit_restore_defaults js now t s).1.code ≡ 200)
      × ((commit_restore_defaults js now t s).0.topics
          ≡ (restore_each js now t
              (map (λ r. r.id) (sort_rows (archived_defaults t.team s)))
              s).topics)
unfolding commit_restore_defaults plan_default_restore
commit_restore_defaults-restore_each js now t s tidy =
    let rows = active_rows t.team s in
    let seen = map (λ n. topic_key js n) (map (λ r. r.content.name) rows) in
    let ls = sort_rows (archived_defaults t.team s) in
    let plan = walk_defaults js seen ls in
    let matched =
      walk-IsMatched js now t seen ls s (defaults-ids js t.team s tidy)
        (defaults-IsWaiting js t.team s tidy) (λ name. Agrees-start js rows name) tidy in
    rw (start-position (max_order rows)) (
      finish_restore-matched now t (next_position t.team s) plan.restore plan.skipped s
        (restore_each js now t (walk_ids ls) s).topics matched.0 matched.1)
