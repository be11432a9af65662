-- ===== src/Topics/Walk.antt =====
-- The walk of planDefaultRestore (packages/shared/src/types/topic.ts) beside the single restores,
-- one archived topic after the other.
use Prim.Native.String.{String}
use project_dipstick.Base.{
  ℕ, true, false, ◌||◌, ◌≡◌, refl, sym, ap, ◌∙◌, inl, inr, some, List, [], ◌∷◌, arith, ◌==◌, All,
  Bool-cases, any, find_row, select_rows, map, update_rows, length, count_rows, length-select_rows,
}
use project_dipstick.Base.Int.{ℤ, pos, add_one}
use project_dipstick.Base.Pairs.{Pairwise, All-follows, All-both}
use project_dipstick.Topics.Defs.{JsText, TopicRow, State, topic_in}
use project_dipstick.Topics.Gates.{Ticket}
use project_dipstick.Topics.Names.{
  topic_key, same_name, has_key, plan_skip, plan_restore, walk_defaults,
}
use project_dipstick.Topics.Changes.{
  active_rows, max_order, position_after, is_archived_topic, restore_row, commit_restore,
}
use project_dipstick.Topics.BulkRestore.{number_from, is_planned, restore_planned}
use project_dipstick.Topics.Tidy.{IsTidy}
use project_dipstick.Topics.Joining.{commit_restore-IsTidy}
use project_dipstick.Topics.Targets.{
  select_rows-target, find_row-restore, any-same_name, max_order-restore,
}
use project_dipstick.Topics.Sequence.{
  restore_each, commit_restore-taken, commit_restore-free, planned-rows, planned-count,
  planned-nothing,
}

abbrev pub HaveOtherIds : TopicRow → TopicRow → Type 0
HaveOtherIds a b = (a.id == b.id) ≡ false

-- The row stands in the table and is archived.
abbrev pub IsWaiting : ℕ → State → TopicRow → Type 0
IsWaiting team s l = (find_row (topic_in team l.id) s.topics ≡ some l) × (l.is_active ≡ false)

-- The keys seen are those of the active topics.
abbrev Agrees : JsText → ℕ → List String → State → Type 0
Agrees js team seen s =
    (name : String)
    → has_key (topic_key js name) seen
      ≡ any (λ u. same_name js u.content.name name) (active_rows team s)

abbrev pub next_position : ℕ → State → ℤ
next_position team s = position_after (pos 0) (max_order (active_rows team s))

abbrev pub walk_ids : List TopicRow → List ℕ
walk_ids ts = map (λ r. r.id) ts

Agrees-restore :
    (js : JsText) (now : ℕ) (t : Ticket) (seen : List String) (l : TopicRow) (s s1 : State)
    → select_rows (is_archived_topic t.team l.id) s.topics ≡ l ∷ []
    → s1.topics
      ≡ update_rows
          (is_archived_topic t.team l.id)
          (restore_row now t.user (next_position t.team s))
          s.topics
    → Agrees js t.team seen s
    → Agrees js t.team (topic_key js l.content.name ∷ seen) s1
unfolding same_name
Agrees-restore js now t seen l s s1 one tops agrees name = rw (tops) (
    ap (λ b. same_name js l.content.name name || b) (agrees name)
    ∙ sym (any-same_name js t.team now t.user (next_position t.team s) l s.topics name one))

IsWaiting-restore :
    (now : ℕ) (t : Ticket) (l : TopicRow) (ls : List TopicRow) (s s1 : State)
    → s1.topics
      ≡ update_rows
          (is_archived_topic t.team l.id)
          (restore_row now t.user (next_position t.team s))
          s.topics
    → All (HaveOtherIds l) ls
    → All (IsWaiting t.team s) ls
    → All (IsWaiting t.team s1) ls
IsWaiting-restore now t l ls s s1 tops others waiting =
    All-follows (λ k. HaveOtherIds l k × IsWaiting t.team s k) (IsWaiting t.team s1) ls
      (λ k h. (
        rw (tops)
            (find_row-restore t.team now t.user (next_position t.team s) l k s.topics h.0 h.1.0),
        h.1.1,
      ))
      (All-both (HaveOtherIds l) (IsWaiting t.team s) ls others waiting)

-- The planned rows, with the positions that follow the active ones.
abbrev planned : JsText → Ticket → List String → List TopicRow → State → List (ℕ × ℤ)
planned js t seen ls s = number_from (next_position t.team s) (walk_defaults js seen ls).restore

-- The statement of the induction: one UPDATE does what the requests do, and touches the planned
-- rows.
abbrev IsMatched : JsText → ℕ → Ticket → List String → List TopicRow → State → Type 0
IsMatched js now t seen ls s =
    (update_rows (is_planned t.team (planned js t seen ls s))
        (restore_planned now t.user (planned js t seen ls s)) s.topics
      ≡ (restore_each js now t (walk_ids ls) s).topics)
    × (count_rows (is_planned t.team (planned js t seen ls s)) s.topics
        ≡ length (walk_defaults js seen ls).restore)

walk_defaults-skip :
    (js : JsText) (seen : List String) (l : TopicRow) (ls : List TopicRow)
    → has_key (topic_key js l.content.name) seen ≡ true
    → walk_defaults js seen (l ∷ ls) ≡ plan_skip l (walk_defaults js seen ls)
unfolding walk_defaults
walk_defaults-skip js seen l ls hit = rw (hit, walk_defaults) refl

walk_defaults-restore :
    (js : JsText) (seen : List String) (l : TopicRow) (ls : List TopicRow)
    → has_key (topic_key js l.content.name) seen ≡ false
    → walk_defaults js seen (l ∷ ls)
      ≡ plan_restore l (walk_defaults js (topic_key js l.content.name ∷ seen) ls)
unfolding walk_defaults
walk_defaults-restore js seen l ls miss = rw (miss, walk_defaults) refl

IsMatched-skip :
    (js : JsText) (now : ℕ) (t : Ticket) (seen : List String) (l : TopicRow) (ls : List TopicRow)
    (s : State)
    → has_key (topic_key js l.content.name) seen ≡ true
    → (commit_restore js now t l.id s).0 ≡ s
    → IsMatched js now t seen ls s
    → IsMatched js now t seen (l ∷ ls) s
unfolding restore_each
IsMatched-skip js now t seen l ls s hit same matched =
    rw (walk_defaults-skip js seen l ls hit, same, restore_each) matched

IsMatched-restore :
    (js : JsText) (now : ℕ) (t : Ticket) (seen : List String) (l : TopicRow) (ls : List TopicRow)
    (s : State)
    → has_key (topic_key js l.content.name) seen ≡ false
    → select_rows (is_archived_topic t.team l.id) s.topics ≡ l ∷ []
    → (commit_restore js now t l.id s).0.topics
      ≡ update_rows
          (is_archived_topic t.team l.id)
          (restore_row now t.user (next_position t.team s))
          s.topics
    → IsMatched js now t (topic_key js l.content.name ∷ seen) ls (commit_restore js now t l.id s).0
    → IsMatched js now t seen (l ∷ ls) s
unfolding restore_each number_from position_after
IsMatched-restore js now t seen l ls s miss one tops (rows, count) =
    let p = next_position t.team s in
    let s1 = (commit_restore js now t l.id s).0 in
    let top : max_order (active_rows t.team s1) ≡ some p =
      rw (tops) (max_order-restore t.team now t.user l s.topics one) in
    let v =
      number_from (add_one p) (walk_defaults js (topic_key js l.content.name ∷ seen) ls).restore in
    let single : count_rows (is_archived_topic t.team l.id) s.topics ≡ 1 =
      sym (length-select_rows (is_archived_topic t.team l.id) s.topics) ∙ ap length one in
    rw (walk_defaults-restore js seen l ls miss) (
      planned-rows t.team now t.user l.id p v s.topics ∙ (rw (top, tops) at rows),
      planned-count t.team now t.user l.id p v s.topics
          ∙ ground (arith, single, rw (top, tops) at count),
    )

pub walk-IsMatched :
    (js : JsText) (now : ℕ) (t : Ticket) (seen : List String) (ls : List TopicRow) (s : State)
    → Pairwise HaveOtherIds ls
    → All (IsWaiting t.team s) ls
    → Agrees js t.team seen s
    → IsTidy js false s
    → IsMatched js now t seen ls s
unfolding walk_defaults restore_each number_from
walk-IsMatched js now t seen [] s ids waiting agrees tidy =
    planned-nothing t.team now t.user s.topics
walk-IsMatched js now t seen (l ∷ ls) s (other, ids) ((found, shut), waiting) agrees tidy =
    elim (Bool-cases (has_key (topic_key js l.content.name) seen)) [
      | inl hit ↦
          IsMatched-skip js now t seen l ls s hit
            (commit_restore-taken js now t s l found shut (sym (agrees l.content.name) ∙ hit))
            (walk-IsMatched js now t seen ls s ids waiting agrees tidy)
      | inr miss ↦
          let s1 = (commit_restore js now t l.id s).0 in
          let one = select_rows-target js false t.team s.topics l tidy.apart found shut in
          let tops =
            commit_restore-free js now t s l found shut (sym (agrees l.content.name) ∙ miss) in
          IsMatched-restore js now t seen l ls s miss one tops (
            walk-IsMatched js now t (topic_key js l.content.name ∷ seen) ls s1 ids
              (IsWaiting-restore now t l ls s s1 tops other waiting)
              (Agrees-restore js now t seen l s s1 one tops agrees)
              (commit_restore-IsTidy js false now t l.id s tidy))
    ]
