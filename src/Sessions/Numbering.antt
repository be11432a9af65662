-- ===== src/Sessions/Numbering.antt =====
-- What a snapshot of a team's topics holds, and in which order.
use project_dipstick.Base.{
  ℕ, suc, Bool, true, false, ◌&&◌, ◌≤◌, ◌<◌, ◌≡◌, ◌⊎◌, refl, inl, inr, some, List, [], ◌∷◌, ◌++◌,
  arith, ◌==◌, ltb, select_rows, All, Bool-cases,
}
use project_dipstick.Base.Pairs.{Pairwise, Pairwise-follows, All-always}
use mathlib.Core.List.{Permᴰ}
use project_dipstick.Sessions.Defs.{Topic, Session, SessionTopic, TopicPhase}
use project_dipstick.Sessions.Snapshot.{
  taken, precedes, insert_topic, sort_topics, active_topics, number_topics, insert_rows,
  snapshot_session_topics,
}
use project_dipstick.Sessions.Store.{Store, find_session}

-- No topic after another comes before it in the window's order.
abbrev IsSorted : List Topic → Type 0
IsSorted = Pairwise (λ t u. precedes t u ≡ true)

-- By display_order, and by id between topics of one display_order.
abbrev pub IsBefore : Topic → Topic → Type 0
IsBefore t u =
    (t.display_order < u.display_order) ⊎ ((t.display_order ≡ u.display_order) × (t.id ≤ u.id))

-- The rows of a session that hold these topics, one each, waiting, and numbered from n on.
pub data IsCopied (session : ℕ) : ℕ → List Topic → List SessionTopic → Type 0 where
  all_copied : (n : ℕ) → IsCopied session n [] []
  copied :
      (n : ℕ) (t : Topic) (r : SessionTopic) (ts : List Topic) (rs : List SessionTopic)
      → r.session_id ≡ session
      → r.topic_id ≡ t.id
      → r.display_order ≡ n
      → r.content ≡ t.content
      → r.phase ≡ TopicPhase.waiting
      → IsCopied session (suc n) ts rs
      → IsCopied session n (t ∷ ts) (r ∷ rs)

-- The row of that number in the session.
abbrev pub is_numbered : ℕ → ℕ → SessionTopic → Bool
is_numbered session n t = t.session_id == session && t.display_order == n

insert_topic-Perm : (t : Topic) (ts : List Topic) → Permᴰ (insert_topic t ts) (t ∷ ts)
unfolding insert_topic
insert_topic-Perm t [] = Permᴰ.cons refl Permᴰ.nil
insert_topic-Perm t (u ∷ us) = elim (Bool-cases (precedes t u)) [
  | inl before ↦ rw (before) (Permᴰ.cons refl (Permᴰ.cons refl (Perm_refl us)))
  | inr after ↦
      rw (after) (Permᴰ.trans (Permᴰ.cons refl (insert_topic-Perm t us)) (Permᴰ.swap refl refl))
]
  where
    Perm_refl : (xs : List Topic) → Permᴰ xs xs
    Perm_refl [] = Permᴰ.nil
    Perm_refl (x ∷ xs) = Permᴰ.cons refl (Perm_refl xs)

sort_topics-Perm : (ts : List Topic) → Permᴰ (sort_topics ts) ts
unfolding sort_topics
sort_topics-Perm [] = Permᴰ.nil
sort_topics-Perm (t ∷ ts) =
    Permᴰ.trans (insert_topic-Perm t (sort_topics ts)) (Permᴰ.cons refl (sort_topics-Perm ts))

All-precedes :
    (t u : Topic) (us : List Topic)
    → precedes t u ≡ true
    → All (λ v. precedes u v ≡ true) us
    → All (λ v. precedes t v ≡ true) us
unfolding precedes
All-precedes t u [] h p = tt
All-precedes t u (v ∷ vs) h (p, ps) = (ground arith, All-precedes t u vs h ps)

All-insert_topic :
    (u t : Topic) (us : List Topic)
    → precedes u t ≡ true
    → All (λ v. precedes u v ≡ true) us
    → All (λ v. precedes u v ≡ true) (insert_topic t us)
unfolding insert_topic
All-insert_topic u t [] h p = (h, tt)
All-insert_topic u t (v ∷ vs) h (p, ps) = elim (Bool-cases (precedes t v)) [
  | inl before ↦ rw (before) (h, (p, ps))
  | inr after ↦ rw (after) (p, All-insert_topic u t vs h ps)
]

precedes-total : (t u : Topic) → precedes t u ≡ false → precedes u t ≡ true
unfolding precedes
precedes-total t u h = ground arith

insert_topic-IsSorted : (t : Topic) (ts : List Topic) → IsSorted ts → IsSorted (insert_topic t ts)
unfolding insert_topic
insert_topic-IsSorted t [] p = (tt, tt)
insert_topic-IsSorted t (u ∷ us) (p, ps) = elim (Bool-cases (precedes t u)) [
  | inl before ↦ rw (before) ((before, All-precedes t u us before p), (p, ps))
  | inr after ↦
      rw (after)
        (All-insert_topic u t us (precedes-total t u after) p, insert_topic-IsSorted t us ps)
]

sort_topics-IsSorted : (ts : List Topic) → IsSorted (sort_topics ts)
unfolding sort_topics
sort_topics-IsSorted [] = tt
sort_topics-IsSorted (t ∷ ts) = insert_topic-IsSorted t (sort_topics ts) (sort_topics-IsSorted ts)

precedes-IsBefore : (t u : Topic) → precedes t u ≡ true → IsBefore t u
unfolding precedes
precedes-IsBefore t u h = elim (Bool-cases (ltb t.display_order u.display_order)) [
  | inl lower ↦ inl (ground arith)
  | inr same ↦ inr (ground arith, ground arith)
]

sort_topics-IsBefore : (ts : List Topic) → Pairwise IsBefore (sort_topics ts)
sort_topics-IsBefore ts =
    Pairwise-follows IsBefore (λ t u. precedes t u ≡ true) (λ t. Unit {0}) (sort_topics ts)
      (λ t u p q h. precedes-IsBefore t u h) (All-always (λ t. Unit {0}) (sort_topics ts) (λ t. tt))
      (sort_topics-IsSorted ts)

number_topics-IsCopied :
    (id session n : ℕ) (ts : List Topic) → IsCopied session n ts (number_topics id session n ts)
unfolding number_topics
number_topics-IsCopied id session n [] = all_copied n
number_topics-IsCopied id session n (t ∷ ts) =
    copied n t _ ts _ refl refl refl refl refl (number_topics-IsCopied (suc id) session (suc n) ts)

-- What `insert_rows` took stands behind what was there.
insert_rows-taken :
    (rows : List SessionTopic) (s s' : Store) (ids : List ℕ)
    → insert_rows rows s ≡ taken s' ids
    → s'.session_topics ≡ s.session_topics ++ rows
unfolding insert_rows
insert_rows-taken [] s s' ids e = ground (arith, e)
insert_rows-taken (r ∷ rs) s s' ids e = ground (arith, e)

-- A snapshot taken for a session adds one waiting row for each active topic of the session's team,
-- with its content, behind the rows that were there. The rows are numbered 1, 2 and so on in the
-- order of the topics' display_order, and of their ids between topics of one display_order.
pub snapshot_session_topics-in_order :
    (session : ℕ) (s s' : Store) (r : Session) (ids : List ℕ)
    → find_session session s.sessions ≡ some r
    → snapshot_session_topics session s ≡ taken s' ids
    → (ts : List Topic) × (rows : List SessionTopic) × Permᴰ ts
        (select_rows (λ t. t.team_id == r.team_id && t.is_active) s.topics)
      × Pairwise IsBefore ts
      × IsCopied session 1 ts rows
      × (s'.session_topics ≡ s.session_topics ++ rows)
unfolding snapshot_session_topics active_topics
snapshot_session_topics-in_order session s s' r ids e took =
    let act = active_topics r.team_id s in
    let rows = number_topics s.next_id session 1 (sort_topics act) in
    let took' : insert_rows rows s ≡ taken s' ids = rw (e, snapshot_session_topics) at took in
    (
      sort_topics act,
      rows,
      sort_topics-Perm act,
      sort_topics-IsBefore act,
      number_topics-IsCopied s.next_id session 1 (sort_topics act),
      insert_rows-taken rows s s' ids took',
    )
