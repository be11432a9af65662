-- ===== src/Topics/Quiet.antt =====
-- The rules of the table under the transactions that archive, annotate and reorder topics.
use Prim.Native.String.{String}
use project_dipstick.Base.{
  ℕ, ◌<◌, Bool, false, ◌&&◌, not, ◌≡◌, inl, inr, Option, arith, ltb, leb, if◌then◌else◌, Bool-cases,
  Option-cases, find_row, update_rows, length, count_rows,
}
use project_dipstick.Base.Pairs.{
  All-follows, All-always, Pairwise-follows, All-update_rows, Pairwise-update_rows,
}
use project_dipstick.Topics.Defs.{JsText, TopicRow, State, active_in, topic_in}
use project_dipstick.Topics.Gates.{Ticket}
use project_dipstick.Topics.Reorder.{shares_position}
use project_dipstick.Topics.Changes.{
  open_action_items, archive_row, archive_topic, commit_archive, is_active_topic, annotate_row,
  same_annotation, commit_annotate,
}
use project_dipstick.Topics.Tidy.{clashes, AreApart, IsCounted, IsTidy}

-- An UPDATE that activates nothing and moves nothing.
quiet-IsTidy :
    (js : JsText) (names : Bool) (p : TopicRow → Bool) (f : TopicRow → TopicRow) (s : State)
    → ((x y : TopicRow)
        → clashes js names x y ≡ false
        → clashes js names (if p x then f x else x) (if p y then f y else y) ≡ false)
    → ((x : TopicRow) → IsCounted x → IsCounted (if p x then f x else x))
    → ((x : TopicRow) → (if p x then f x else x).id ≡ x.id)
    → IsTidy js names s
    → IsTidy js names (record s { topics = update_rows p f s.topics })
quiet-IsTidy js names p f s pairs rows ids tidy = record {
  apart = Pairwise-update_rows (AreApart js names) p f s.topics (
      Pairwise-follows {0, 0, 0, 0}
        (λ x y. AreApart js names (if p x then f x else x) (if p y then f y else y))
        (AreApart js names) (λ x. Unit) s.topics (λ x y _ _ h. pairs x y h)
        (All-always (λ x. Unit) s.topics (λ x. tt)) tidy.apart);
  counted =
      All-update_rows IsCounted p f s.topics (
        All-follows IsCounted (λ x. IsCounted (if p x then f x else x)) s.topics rows tidy.counted);
  known =
      All-update_rows (λ u. u.id < s.next_id) p f s.topics
        (All-follows (λ u. u.id < s.next_id) (λ x. (if p x then f x else x).id < s.next_id) s.topics
          (λ x h. omega (arith, h, ids x)) tidy.known);
}

archive_topic-IsTidy :
    (js : JsText) (names : Bool) (now : ℕ) (t : Ticket) (topic : ℕ) (s : State)
    → IsTidy js names s
    → IsTidy js names (archive_topic now t topic s).0
unfolding archive_topic clashes shares_position
archive_topic-IsTidy js names now t topic s tidy =
    elim (Option-cases (find_row (is_active_topic t.team topic) s.topics)) [
      | inl gone ↦ rw (gone, archive_topic) tidy
      | inr (r, found) ↦
          let next =
            quiet-IsTidy js names (is_active_topic t.team topic) (archive_row now t.user) s
              (λ x y h. ground (arith, h)) (λ x h. λ a. ground (arith, h, a)) (λ x. ground arith)
              tidy in
          rw (found, archive_topic)
            (record { apart = next.apart; counted = next.counted; known = next.known })
    ]

pub commit_archive-IsTidy :
    (js : JsText) (names : Bool) (now : ℕ) (t : Ticket) (topic : ℕ) (confirmed : Bool) (s : State)
    → IsTidy js names s
    → IsTidy js names (commit_archive now t topic confirmed s).0
unfolding commit_archive
commit_archive-IsTidy js names now t topic confirmed s tidy =
    let last = leb (count_rows (active_in t.team) s.topics) 1 in
    let asks = not confirmed && ltb 0 (length (open_action_items topic s)) in
    elim (Bool-cases last) [
      | inl few ↦ rw (few, commit_archive) tidy
      | inr more ↦ elim (Bool-cases asks) [
        | inl ask ↦ rw (more, ask, commit_archive) tidy
        | inr go ↦ rw (more, go, commit_archive) (archive_topic-IsTidy js names now t topic s tidy)
      ]
    ]

pub commit_annotate-IsTidy :
    (js : JsText) (names : Bool) (now : ℕ) (t : Ticket) (topic : ℕ) (a : Option String) (s : State)
    → IsTidy js names s
    → IsTidy js names (commit_annotate js now t topic a s).0
unfolding commit_annotate clashes shares_position
commit_annotate-IsTidy js names now t topic a s tidy =
    elim (Option-cases (find_row (topic_in t.team topic) s.topics)) [
      | inl gone ↦ rw (gone, commit_annotate) tidy
      | inr (r, found) ↦ elim (Bool-cases r.is_active) [
        | inr shut ↦ rw (found, shut, commit_annotate) tidy
        | inl live ↦ elim (Bool-cases (same_annotation r.content.annotation a)) [
          | inl same ↦ rw (found, live, same, commit_annotate) tidy
          | inr other ↦
              let next =
                quiet-IsTidy js names (is_active_topic t.team topic) (annotate_row now t.user a) s
                  (λ x y h. ground (arith, h)) (λ x h. λ e. ground (arith, h, e))
                  (λ x. ground arith) tidy in
              rw (found, live, other, commit_annotate)
                (record { apart = next.apart; counted = next.counted; known = next.known })
        ]
      ]
    ]
