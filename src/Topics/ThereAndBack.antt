-- ===== src/Topics/ThereAndBack.antt =====
-- DELETE topics/:topicId followed by POST topics/:topicId/restore
-- (packages/backend/src/routes/topics.ts).

use mathlib.Core.Option
use mathlib.Core.Path.{subst}
use project_dipstick.Base.{
  ℕ, ◌≤◌, Bool, true, false, ◌≡◌, refl, ap, ◌∙◌, inl, inr, some, List, [], ◌∷◌, arith, ◌==◌,
  ==_refl, leb, if◌then◌else◌, All, Bool-cases, any, find_row, select_rows, update_rows, count_rows,
  find_row-update_rows, find_row-holds, find_row-update_rows_other,
}
use project_dipstick.Base.Int.{ℤ, pos}
use project_dipstick.Base.Pairs.{
  Pairwise, All-find_row, All-follows, All-select_rows, All-update_rows,
}
use project_dipstick.Topics.Defs.{JsText, World, TopicRow, State, TopicReply, active_in, topic_in}
use project_dipstick.Topics.Gates.{Ticket}
use project_dipstick.Topics.Names.{same_name}
use project_dipstick.Topics.Changes.{
  active_rows, max_order, position_after, is_active_topic, archive_row, archive_topic,
  commit_archive, is_archived_topic, restore_row, restore_target, commit_restore,
}
use project_dipstick.Topics.Handle.{archive, restore, commit}
use project_dipstick.Topics.Free.{find_active_name_conflict-missing}
use project_dipstick.Topics.Placing.{any-All}
use project_dipstick.Topics.Tidy.{clashes, AreApart, IsTidy, clashes_sym}

-- The row that a search finds clashes with none of another id.
found-apart :
    (js : JsText) (names : Bool) (p : TopicRow → Bool) (rows : List TopicRow) (r : TopicRow)
    → Pairwise (AreApart js names) rows
    → find_row p rows ≡ some r
    → All (λ u. (u.id == r.id) ≡ false → clashes js names u r ≡ false) rows
unfolding find_row
found-apart js names p [] r a e = tt
found-apart js names p (t ∷ ts) r (a, rest) e = elim (Bool-cases (p t)) [
  | inl hit ↦
      let same : some t ≡ some r = rw (hit, find_row) at e in
      (
        λ other. absurd (ground (arith, other, ap (λ u. u.id) ((Option.some_inj).0 same))),
        All-follows (AreApart js names t)
            (λ u. (u.id == r.id) ≡ false → clashes js names u r ≡ false) ts
            (λ u h other.
              subst (λ x. clashes js names u x ≡ false) ((Option.some_inj).0 same)
                (clashes_sym js names t u h))
            a,
      )
  | inr miss ↦
      let later : find_row p ts ≡ some r = rw (miss, find_row) at e in
      (
        λ other. All-find_row (AreApart js names t) p ts r a later,
        found-apart js names p ts r rest later,
      )
]

-- After the archiving, no active topic of the team has the target's name.
name-free :
    (js : JsText) (now user team topic : ℕ) (rows : List TopicRow) (r : TopicRow)
    → Pairwise (AreApart js true) rows
    → find_row (topic_in team topic) rows ≡ some r
    → r.is_active ≡ true
    → any
        (λ u. same_name js u.content.name r.content.name)
        (select_rows
          (active_in team)
          (update_rows (is_active_topic team topic) (archive_row now user) rows))
      ≡ false
unfolding clashes
name-free js now user team topic rows r apart found live =
    let p = is_active_topic team topic in
    let f = archive_row now user in
    let Free : TopicRow → Type 0 = λ u. same_name js u.content.name r.content.name ≡ false in
    let is_target = find_row-holds (topic_in team topic) rows r found in
    any-All (λ u. same_name js u.content.name r.content.name)
      (select_rows (active_in team) (update_rows p f rows))
      (All-select_rows Free (active_in team) (update_rows p f rows) (
        All-update_rows (λ u. active_in team u ≡ true → Free u) p f rows
          (All-follows (λ u. (u.id == r.id) ≡ false → clashes js true u r ≡ false)
            (λ u. active_in team (if p u then f u else u) ≡ true → Free (if p u then f u else u))
            rows (λ u h e. ground (arith, h, e, is_target, live))
            (found-apart js true (topic_in team topic) rows r apart found))))

find_row-active :
    (team topic : ℕ) (rows : List TopicRow) (r : TopicRow)
    → find_row (topic_in team topic) rows ≡ some r
    → r.is_active ≡ true
    → find_row (is_active_topic team topic) rows ≡ some r
unfolding find_row
find_row-active team topic [] r e live = absurd (ground (arith, e))
find_row-active team topic (t ∷ ts) r e live = elim (Bool-cases (topic_in team topic t)) [
  | inl hit ↦
      let same : some t ≡ some r = rw (hit, find_row) at e in
      let active : t.is_active ≡ true = ap (λ u. u.is_active) ((Option.some_inj).0 same) ∙ live in
      ground (arith, hit, active, same)
  | inr miss ↦
      let later : find_row (topic_in team topic) ts ≡ some r = rw (miss, find_row) at e in
      ground (arith, miss, find_row-active team topic ts r later live)
]

archived_topics :
    (now : ℕ) (t : Ticket) (topic : ℕ) (s : State) (r : TopicRow)
    → find_row (topic_in t.team topic) s.topics ≡ some r
    → r.is_active ≡ true
    → 2 ≤ count_rows (active_in t.team) s.topics
    → (commit_archive now t topic true s).0.topics
      ≡ update_rows (is_active_topic t.team topic) (archive_row now t.user) s.topics
unfolding commit_archive archive_topic
archived_topics now t topic s r found live two =
    let more : leb (count_rows (active_in t.team) s.topics) 1 ≡ false = ground (arith, two) in
    rw (more, commit_archive, find_row-active t.team topic s.topics r found live, archive_topic)
      refl

find-archived :
    (now : ℕ) (t : Ticket) (topic : ℕ) (rows : List TopicRow) (r : TopicRow)
    → find_row (topic_in t.team topic) rows ≡ some r
    → r.is_active ≡ true
    → find_row
        (topic_in t.team topic)
        (update_rows (is_active_topic t.team topic) (archive_row now t.user) rows)
      ≡ some (archive_row now t.user r)
find-archived now t topic rows r found live =
    find_row-update_rows (topic_in t.team topic) (is_active_topic t.team topic)
      (archive_row now t.user) rows (λ x. refl)
    ∙ ground (arith, found, live, find_row-holds (topic_in t.team topic) rows r found)

restored_topics :
    (js : JsText) (now : ℕ) (t : Ticket) (topic : ℕ) (s : State) (a : TopicRow)
    → find_row (topic_in t.team topic) s.topics ≡ some a
    → a.is_active ≡ false
    → any (λ u. same_name js u.content.name a.content.name) (active_rows t.team s) ≡ false
    → ((commit_restore js now t topic s).1.code ≡ 200)
      × ((commit_restore js now t topic s).0.topics
          ≡ update_rows
              (is_archived_topic t.team a.id)
              (restore_row now t.user (position_after (pos 0) (max_order (active_rows t.team s))))
              s.topics)
unfolding commit_restore restore_target
restored_topics js now t topic s a found shut free =
    let no_conflict =
      find_active_name_conflict-missing js (active_rows t.team s) a.content.name free in
    (
      rw (found, commit_restore, shut, no_conflict, restore_target) refl,
      rw (found, commit_restore, shut, no_conflict, restore_target) refl,
    )

find-restored :
    (now : ℕ) (t : Ticket) (topic : ℕ) (p : ℤ) (rows : List TopicRow) (a : TopicRow)
    → find_row (topic_in t.team topic) rows ≡ some a
    → a.is_active ≡ false
    → find_row
        (topic_in t.team topic)
        (update_rows (is_archived_topic t.team a.id) (restore_row now t.user p) rows)
      ≡ some (restore_row now t.user p a)
find-restored now t topic p rows a found shut =
    find_row-update_rows (topic_in t.team topic) (is_archived_topic t.team a.id)
      (restore_row now t.user p) rows (λ x. refl)
    ∙ ground (arith, found, shut, ==_refl a.id, find_row-holds (topic_in t.team topic) rows a found)

-- The state after the archiving, and after both.
abbrev pub gone : JsText → World → Ticket → ℕ → State → State
gone js w t topic s = (commit js w t (archive topic true) s).0

abbrev pub back : JsText → World → World → Ticket → ℕ → State → State × TopicReply
back js w w' t topic s = commit js w' t (restore topic) (gone js w t topic s)

-- On a table that keeps its rules, that on names included, an active topic that is not the last
-- one of its team comes back from a confirmed archiving and a restore: the restore succeeds, the
-- topic is active at the position behind the others with the two times and actors noted and all
-- else as before, and every other topic is as before.
pub back-find_row :
    (js : JsText) (w w' : World) (t : Ticket) (topic : ℕ) (s : State) (r : TopicRow)
    → IsTidy js true s
    → find_row (topic_in t.team topic) s.topics ≡ some r
    → r.is_active ≡ true
    → 2 ≤ count_rows (active_in t.team) s.topics
    → ((back js w w' t topic s).1.code ≡ 200)
      × (find_row (topic_in t.team topic) (back js w w' t topic s).0.topics
          ≡ some (record r {
            display_order =
                position_after (pos 0) (max_order (active_rows t.team (gone js w t topic s)));
            is_active = true;
            archived_at = some w.now;
            archived_by = some t.user;
            restored_at = some w'.now;
            restored_by = some t.user;
          }))
      × ((k id : ℕ)
          → (id == topic) ≡ false
          → find_row (topic_in k id) (back js w w' t topic s).0.topics
            ≡ find_row (topic_in k id) s.topics)
unfolding commit
back-find_row js w w' t topic s r tidy found live two =
    let s1 = gone js w t topic s in
    let a = archive_row w.now t.user r in
    let p = position_after (pos 0) (max_order (active_rows t.team s1)) in
    let tops : s1.topics
        ≡ update_rows (is_active_topic t.team topic) (archive_row w.now t.user) s.topics =
      archived_topics w.now t topic s r found live two in
    let found1 : find_row (topic_in t.team topic) s1.topics ≡ some a =
      rw (tops) (find-archived w.now t topic s.topics r found live) in
    let free : any (λ u. same_name js u.content.name r.content.name) (active_rows t.team s1)
        ≡ false =
      rw (tops) (name-free js w.now t.user t.team topic s.topics r tidy.apart found live) in
    let done = restored_topics js w'.now t topic s1 a found1 refl free in
    (
      done.0,
      rw (done.1) (find-restored w'.now t topic p s1.topics a found1 refl),
      λ k id other.
          ap (find_row (topic_in k id)) done.1
          ∙ find_row-update_rows_other (topic_in k id) (is_archived_topic t.team r.id)
              (restore_row w'.now t.user p) s1.topics (λ x. refl)
              (λ x h.
                ground (arith, h, other, find_row-holds (topic_in t.team topic) s.topics r found))
          ∙ ap (find_row (topic_in k id)) tops
          ∙ find_row-update_rows_other (topic_in k id) (is_active_topic t.team topic)
              (archive_row w.now t.user) s.topics (λ x. refl) (λ x h. ground (arith, h, other)),
    )
