-- ===== src/Topics/LastArchived.antt =====
-- The count of active topics under DELETE topics/:topicId (packages/backend/src/routes/topics.ts).

use project_dipstick.Base.{
  ℕ, ◌≤◌, Bool, true, false, ◌&&◌, not, ◌≡◌, refl, ap, inl, inr, List, [], ◌∷◌, arith, ◌==◌, ltb,
  leb, All, Bool-cases, Option-cases, find_row, update_rows, count_rows, count_rows-update_mono,
  count_rows-update_loss, length,
}
use project_dipstick.Base.Pairs.{Pairwise}
use project_dipstick.Topics.Defs.{JsText, TopicRow, State, active_in}
use project_dipstick.Topics.Gates.{Ticket}
use project_dipstick.Topics.Changes.{
  open_action_items, is_active_topic, archive_row, archive_topic, commit_archive,
}
use project_dipstick.Topics.Tidy.{AreApart, IsTidy, clashes-ids}

-- The number of active topics of a team.
abbrev pub active_count : ℕ → State → ℕ
active_count team s = count_rows (active_in team) s.topics

no-other :
    (js : JsText) (names : Bool) (team : ℕ) (t : TopicRow) (ts : List TopicRow)
    → All (AreApart js names t) ts
    → count_rows (is_active_topic team t.id) ts ≡ 0
unfolding count_rows
no-other js names team t [] a = refl
no-other js names team t (u ∷ us) (a, rest) =
    ground (arith, clashes-ids js names t u a, no-other js names team t us rest)

count-target :
    (js : JsText) (names : Bool) (team topic : ℕ) (rows : List TopicRow)
    → Pairwise (AreApart js names) rows
    → count_rows (is_active_topic team topic) rows ≤ 1
unfolding count_rows
count-target js names team topic [] a = omega arith
count-target js names team topic (t ∷ ts) (a, rest) = elim (Bool-cases (t.id == topic)) [
  | inl hit ↦ ground (
    arith,
    hit,
    no-other js names team t ts a,
    λ (e : t.id ≡ topic). ap (λ i. count_rows (is_active_topic team i) ts) e,
  )
  | inr miss ↦ ground (arith, miss, count-target js names team topic ts rest)
]

archive-elsewhere :
    (team topic now user k : ℕ) (rows : List TopicRow)
    → (team == k) ≡ false
    → count_rows (active_in k) rows
      ≤ count_rows
          (active_in k)
          (update_rows (is_active_topic team topic) (archive_row now user) rows)
archive-elsewhere team topic now user k rows other =
    count_rows-update_mono (active_in k) (is_active_topic team topic) (archive_row now user) rows
      (λ x p q. absurd (ground (arith, p, q, other)))

archive_topic-count :
    (js : JsText) (names : Bool) (now : ℕ) (t : Ticket) (topic k : ℕ) (s : State)
    → IsTidy js names s
    → 1 ≤ active_count k s
    → ((t.team == k) ≡ true → 2 ≤ active_count k s)
    → 1 ≤ active_count k (archive_topic now t topic s).0
unfolding archive_topic
archive_topic-count js names now t topic k s tidy h two =
    elim (Option-cases (find_row (is_active_topic t.team topic) s.topics)) [
      | inl gone ↦ rw (gone, archive_topic) h
      | inr (r, found) ↦
          rw (found, archive_topic)
            (elim (Bool-cases (t.team == k)) [
              | inl here ↦ omega (
                arith,
                two here,
                count-target js names t.team topic s.topics tidy.apart,
                count_rows-update_loss (active_in k) (is_active_topic t.team topic)
                    (archive_row now t.user) s.topics,
              )
              | inr other ↦
                  omega (arith, h, archive-elsewhere t.team topic now t.user k s.topics other)
            ])
    ]

pub commit_archive-count :
    (js : JsText) (names : Bool) (now : ℕ) (t : Ticket) (topic : ℕ) (confirmed : Bool) (k : ℕ)
    (s : State)
    → IsTidy js names s
    → 1 ≤ active_count k s
    → 1 ≤ active_count k (commit_archive now t topic confirmed s).0
unfolding commit_archive
commit_archive-count js names now t topic confirmed k s tidy h =
    let last = leb (active_count t.team s) 1 in
    let asks = not confirmed && ltb 0 (length (open_action_items topic s)) in
    elim (Bool-cases last) [
      | inl few ↦ rw (few, commit_archive) h
      | inr more ↦ elim (Bool-cases asks) [
        | inl ask ↦ rw (more, ask, commit_archive) h
        | inr go ↦
            rw (more, go, commit_archive)
              (archive_topic-count js names now t topic k s tidy h
                (λ here. ground (arith, more, λ (e : t.team ≡ k). ap (λ i. active_count i s) e)))
      ]
    ]
