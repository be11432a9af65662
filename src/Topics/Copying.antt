-- ===== src/Topics/Copying.antt =====
-- The rules of the table under the assignment of the defaults.

use project_dipstick.Base.{
  ℕ, suc, ◌+◌, ◌<◌, ◌≤◌, Bool, true, false, ◌≡◌, refl, inl, inr, List, [], ◌∷◌, ◌++◌, arith, ltb,
  All, Bool-cases, select_rows, length, count_rows,
}
use project_dipstick.Base.Int.{eq_int, is_negative}
use project_dipstick.Base.Pairs.{
  Pairwise, All-append, Pairwise-append, count_rows-nothing, All-follows, All-both, All-always,
  All-select_rows, Pairwise-select_rows,
}
use project_dipstick.Topics.Defs.{JsText, TopicRow, State, active_in}
use project_dipstick.Topics.Gates.{Ticket}
use project_dipstick.Topics.Names.{comes_before, insert_row, sort_rows}
use project_dipstick.Topics.Reorder.{shares_position}
use project_dipstick.Topics.Changes.{
  is_canonical_default, copy_row, copy_rows, copy_canonical_defaults, finish_assign, commit_assign,
}
use project_dipstick.Topics.Tidy.{clashes, AreApart, IsCounted, IsTidy, clashes_sym}

-- A sort keeps facts on each row and symmetric relations between any two.
pub All-sort_rows {κ} :
    (P : TopicRow → Type κ) (ts : List TopicRow) → All P ts → All P (sort_rows ts)
unfolding sort_rows
All-sort_rows P [] a = tt
All-sort_rows P (t ∷ ts) (a, rest) = All-insert t (sort_rows ts) a (All-sort_rows P ts rest)
  where
    All-insert : (t : TopicRow) (us : List TopicRow) → P t → All P us → All P (insert_row t us)
    All-insert t [] a rest = (a, tt)
    All-insert t (u ∷ us) a (b, rest) = elim (Bool-cases (comes_before u t)) [
      | inl before ↦ rw (before, insert_row) (b, All-insert t us a rest)
      | inr after ↦ rw (after, insert_row) (a, (b, rest))
    ]

Pairwise-insert_row {κ} :
    (P : TopicRow → TopicRow → Type κ) (t : TopicRow) (us : List TopicRow)
    → ((x y : TopicRow) → P x y → P y x)
    → All (P t) us
    → Pairwise P us
    → Pairwise P (insert_row t us)
unfolding insert_row
Pairwise-insert_row P t [] h a rest = (tt, tt)
Pairwise-insert_row P t (u ∷ us) h (a, as_t) (b, rest) = elim (Bool-cases (comes_before u t)) [
  | inl before ↦
      rw (before, insert_row)
        (All-insert u t us (h t u a) b, Pairwise-insert_row P t us h as_t rest)
  | inr after ↦ rw (after, insert_row) ((a, as_t), (b, rest))
]
  where
    All-insert :
        (u t : TopicRow) (us : List TopicRow) → P u t → All (P u) us → All (P u) (insert_row t us)
    All-insert u t [] a rest = (a, tt)
    All-insert u t (v ∷ vs) a (b, rest) = elim (Bool-cases (comes_before v t)) [
      | inl before ↦ rw (before, insert_row) (b, All-insert u t vs a rest)
      | inr after ↦ rw (after, insert_row) (a, (b, rest))
    ]

pub Pairwise-sort_rows {κ} :
    (P : TopicRow → TopicRow → Type κ) (ts : List TopicRow)
    → ((x y : TopicRow) → P x y → P y x)
    → Pairwise P ts
    → Pairwise P (sort_rows ts)
unfolding sort_rows
Pairwise-sort_rows P [] h a = tt
Pairwise-sort_rows P (t ∷ ts) h (a, rest) =
    Pairwise-insert_row P t (sort_rows ts) h (All-sort_rows (P t) ts a)
      (Pairwise-sort_rows P ts h rest)

-- Copies that come later differ from an earlier one.
copies-apart :
    (js : JsText) (names : Bool) (team id n id' n' : ℕ) (t : TopicRow) (us : List TopicRow)
    → id < id'
    → n < n'
    → is_canonical_default t ≡ true
    → All (λ u. (clashes js names t u ≡ false) × (is_canonical_default u ≡ true)) us
    → All (AreApart js names (copy_row id team n t)) (copy_rows id' team n' us)
unfolding copy_rows clashes shares_position eq_int
copies-apart js names team id n id' n' t [] h k c a = tt
copies-apart js names team id n id' n' t (u ∷ us) h k c (a, rest) = (
  ground (arith, h, k, c, a),
  copies-apart js names team id n (suc id') (suc n') t us (omega (arith, h)) (omega (arith, k)) c
      rest,
)

Pairwise-copy_rows :
    (js : JsText) (names : Bool) (team id n : ℕ) (ts : List TopicRow)
    → All (λ u. is_canonical_default u ≡ true) ts
    → Pairwise (AreApart js names) ts
    → Pairwise (AreApart js names) (copy_rows id team n ts)
unfolding copy_rows
Pairwise-copy_rows js names team id n [] c a = tt
Pairwise-copy_rows js names team id n (t ∷ ts) (c, cs) (a, rest) = (
  copies-apart js names team id n (suc id) (suc n) t ts (omega arith) (omega arith) c
      (All-both (AreApart js names t) (λ u. is_canonical_default u ≡ true) ts a cs),
  Pairwise-copy_rows js names team (suc id) (suc n) ts cs rest,
)

-- A copy clashes with no row of before: no id is new twice, and the team has no active topic.
copies_join :
    (js : JsText) (names : Bool) (team id n : ℕ) (ts rows : List TopicRow)
    → All (λ u. (active_in team u ≡ false) × (u.id < id)) rows
    → All (λ c. All (AreApart js names c) rows) (copy_rows id team n ts)
unfolding copy_rows clashes shares_position
copies_join js names team id n [] rows a = tt
copies_join js names team id n (t ∷ ts) rows a = (
  All-follows (λ u. (active_in team u ≡ false) × (u.id < id))
      (AreApart js names (copy_row id team n t)) rows (λ u h. ground (arith, h)) a,
  copies_join js names team (suc id) (suc n) ts rows (
      All-follows (λ u. (active_in team u ≡ false) × (u.id < id))
        (λ u. (active_in team u ≡ false) × (u.id < suc id)) rows (λ u h. (h.0, omega (arith, h.1)))
        a),
)

IsCounted-copy_rows : (team id n : ℕ) (ts : List TopicRow) → All IsCounted (copy_rows id team n ts)
unfolding copy_rows is_negative
IsCounted-copy_rows team id n [] = tt
IsCounted-copy_rows team id n (t ∷ ts) = (λ _. refl, IsCounted-copy_rows team (suc id) (suc n) ts)

known-copy_rows :
    (team id n m : ℕ) (ts : List TopicRow)
    → id + length (copy_rows id team n ts) ≤ m
    → All (λ u. u.id < m) (copy_rows id team n ts)
unfolding copy_rows
known-copy_rows team id n m [] h = tt
known-copy_rows team id n m (t ∷ ts) h =
    (omega (arith, h), known-copy_rows team (suc id) (suc n) m ts (omega (arith, h)))

assign-IsTidy :
    (js : JsText) (names : Bool) (team : ℕ) (s : State)
    → ltb 0 (count_rows (active_in team) s.topics) ≡ false
    → IsTidy js names s
    → IsTidy js names (record s {
      topics = copy_canonical_defaults team s ++ s.topics;
      next_id = s.next_id + length (copy_canonical_defaults team s);
    })
unfolding copy_canonical_defaults
assign-IsTidy js names team s nothing tidy =
    let chosen = select_rows is_canonical_default s.topics in
    let copies = copy_rows s.next_id team 1 (sort_rows chosen) in
    let more = s.next_id + length copies in
    record {
      apart =
          Pairwise-append (AreApart js names) copies s.topics
            (Pairwise-copy_rows js names team s.next_id 1 (sort_rows chosen)
              (All-sort_rows (λ u. is_canonical_default u ≡ true) chosen
                (All-select_rows (λ u. is_canonical_default u ≡ true) is_canonical_default s.topics
                  (All-always (λ u. is_canonical_default u ≡ true → is_canonical_default u ≡ true)
                    s.topics (λ u h. h))))
              (Pairwise-sort_rows (AreApart js names) chosen (λ x y h. clashes_sym js names x y h)
                (Pairwise-select_rows (AreApart js names) is_canonical_default s.topics
                  tidy.apart)))
            tidy.apart
            (copies_join js names team s.next_id 1 (sort_rows chosen) s.topics (
              All-both (λ u. active_in team u ≡ false) (λ u. u.id < s.next_id) s.topics
                (count_rows-nothing (active_in team) s.topics nothing) tidy.known));
      counted =
          All-append IsCounted copies s.topics
            (IsCounted-copy_rows team s.next_id 1 (sort_rows chosen)) tidy.counted;
      known =
          All-append (λ u. u.id < more) copies s.topics
            (known-copy_rows team s.next_id 1 more (sort_rows chosen) (omega arith))
            (All-follows (λ u. u.id < s.next_id) (λ u. u.id < more) s.topics
              (λ u h. omega (arith, h)) tidy.known);
    }

finish_assign-IsTidy :
    (js : JsText) (names b : Bool) (t : Ticket) (rows : List TopicRow) (s : State)
    → IsTidy js names s
    → IsTidy js names (record s { topics = rows ++ s.topics; next_id = s.next_id + length rows })
    → IsTidy js names (finish_assign b t rows s).0
unfolding finish_assign
finish_assign-IsTidy js names true t [] s tidy next = record {
  apart = tidy.apart;
  counted = tidy.counted;
  known = tidy.known;
}
finish_assign-IsTidy js names false t [] s tidy next = tidy
finish_assign-IsTidy js names b t (r ∷ rs) s tidy next = record {
  apart = next.apart;
  counted = next.counted;
  known = next.known;
}

pub commit_assign-IsTidy :
    (js : JsText) (names b : Bool) (t : Ticket) (s : State)
    → IsTidy js names s
    → IsTidy js names (commit_assign b t s).0
unfolding commit_assign
commit_assign-IsTidy js names b t s tidy =
    elim (Bool-cases (ltb 0 (count_rows (active_in t.team) s.topics))) [
      | inl some_active ↦ rw (some_active, commit_assign) tidy
      | inr nothing ↦
          rw (nothing, commit_assign)
            (finish_assign-IsTidy js names b t (copy_canonical_defaults t.team s) s tidy
              (assign-IsTidy js names t.team s nothing tidy))
    ]
