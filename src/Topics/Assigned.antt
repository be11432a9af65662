-- ===== src/Topics/Assigned.antt =====
-- What the assignment of the defaults leaves (copyCanonicalDefaults of
-- packages/backend/src/sessions/default-topics.ts under POST topics/assign-defaults).
use Prim.Native.String.{String}
use project_dipstick.Base.{
  ℕ, suc, ◌<◌, ◌≤◌, Bool, false, ◌≡◌, refl, ap, ◌∙◌, List, [], ◌∷◌, ◌++◌, map, arith, ==_refl, ltb,
  All, select_rows, count_rows, length,
}
use project_dipstick.Base.Int.{ℤ, pos, lt_int, lt_int_asym, eq_int-lt_int}
use project_dipstick.Base.Pairs.{Pairwise, count_rows-nothing}
use project_dipstick.Topics.Defs.{TopicRow, State, active_in}
use project_dipstick.Topics.Gates.{Ticket}
use project_dipstick.Topics.Names.{comes_before, insert_row, sort_rows}
use project_dipstick.Topics.Changes.{
  active_rows, is_canonical_default, copy_row, copy_rows, copy_canonical_defaults, finish_assign,
  commit_assign,
}
use project_dipstick.Topics.Sorted.{StandBefore}

-- Position and name of the topics, in order.
abbrev pub shown : List TopicRow → List (ℤ × String)
shown ts = map (λ t. (t.display_order, t.content.name)) ts

-- The names in order, numbered from n on.
abbrev pub numbered : ℕ → List TopicRow → List (ℤ × String)
numbered n [] = []
numbered n (t ∷ ts) = (pos n, t.content.name) ∷ numbered (suc n) ts

-- The template's topics, in order.
abbrev pub template_topics : State → List TopicRow
template_topics s = sort_rows (select_rows is_canonical_default s.topics)

insert_row-first :
    (t : TopicRow) (us : List TopicRow) → All (StandBefore t) us → insert_row t us ≡ t ∷ us
unfolding insert_row comes_before
insert_row-first t [] a = refl
insert_row-first t (u ∷ us) (a, rest) = ground (
  arith,
  a,
  lt_int_asym t.display_order u.display_order a,
  eq_int-lt_int t.display_order u.display_order a,
)

sort_rows-increasing_lem : (ts : List TopicRow) → Pairwise StandBefore ts → sort_rows ts ≡ ts
unfolding sort_rows
sort_rows-increasing_lem [] a = refl
sort_rows-increasing_lem (t ∷ ts) (a, rest) =
    ap (insert_row t) (sort_rows-increasing_lem ts rest) ∙ insert_row-first t ts a

copies-later :
    (id team m n : ℕ) (t : TopicRow) (ts : List TopicRow)
    → t.display_order ≡ pos m
    → m < n
    → All (StandBefore t) (copy_rows id team n ts)
unfolding copy_rows lt_int
copies-later id team m n t [] e h = tt
copies-later id team m n t (u ∷ us) e h =
    (rw (e) (ground (arith, h)), copies-later (suc id) team m (suc n) t us e (omega (arith, h)))

copies-increasing :
    (id team n : ℕ) (ts : List TopicRow) → Pairwise StandBefore (copy_rows id team n ts)
unfolding copy_rows
copies-increasing id team n [] = tt
copies-increasing id team n (t ∷ ts) = (
  copies-later (suc id) team n (suc n) (copy_row id team n t) ts refl (omega arith),
  copies-increasing (suc id) team (suc n) ts,
)

select-none :
    (team : ℕ) (rows : List TopicRow)
    → All (λ u. active_in team u ≡ false) rows
    → select_rows (active_in team) rows ≡ []
unfolding select_rows
select-none team [] a = refl
select-none team (u ∷ us) (a, rest) = rw (a) (select-none team us rest)

select-copies :
    (id team n : ℕ) (ts rows : List TopicRow)
    → All (λ u. active_in team u ≡ false) rows
    → select_rows (active_in team) (copy_rows id team n ts ++ rows) ≡ copy_rows id team n ts
unfolding copy_rows select_rows
select-copies id team n [] rows a = select-none team rows a
select-copies id team n (t ∷ ts) rows a =
    rw (==_refl team)
      (ap (λ us. copy_row id team n t ∷ us) (select-copies (suc id) team (suc n) ts rows a))

shown-copies : (id team n : ℕ) (ts : List TopicRow) → shown (copy_rows id team n ts) ≡ numbered n ts
unfolding copy_rows
shown-copies id team n [] = refl
shown-copies id team n (t ∷ ts) =
    ap (λ us. (pos n, t.content.name) ∷ us) (shown-copies (suc id) team (suc n) ts)

finish_assign-rows :
    (b : Bool) (t : Ticket) (id : ℕ) (ts : List TopicRow) (s : State)
    → 1 ≤ length ts
    → ((finish_assign b t (copy_rows id t.team 1 ts) s).1.code ≡ 201)
      × ((finish_assign b t (copy_rows id t.team 1 ts) s).0.topics
          ≡ copy_rows id t.team 1 ts ++ s.topics)
unfolding finish_assign copy_rows
finish_assign-rows b t id [] s h = absurd (omega (arith, h))
finish_assign-rows b t id (r ∷ rs) s h = (refl, refl)

-- For a team without active topics, and with a template that has some, the assignment answers 201,
-- and the team's active topics are the template's names in the template's order, at 1, 2 and so on.
pub commit_assign-shown :
    (b : Bool) (t : Ticket) (s : State)
    → count_rows (active_in t.team) s.topics ≡ 0
    → 1 ≤ length (template_topics s)
    → ((commit_assign b t s).1.code ≡ 201)
      × (shown (sort_rows (active_rows t.team (commit_assign b t s).0))
          ≡ numbered 1 (template_topics s))
unfolding commit_assign copy_canonical_defaults
commit_assign-shown b t s nothing full =
    let id = s.next_id in
    let ts = template_topics s in
    let empty : ltb 0 (count_rows (active_in t.team) s.topics) ≡ false = ground (arith, nothing) in
    let done = finish_assign-rows b t id ts s full in
    rw (empty, commit_assign, copy_canonical_defaults)
      (
        done.0,
        rw
            (
              done.1,
              select-copies id t.team 1 ts s.topics
                  (count_rows-nothing (active_in t.team) s.topics empty),
              sort_rows-increasing_lem (copy_rows id t.team 1 ts)
                  (copies-increasing id t.team 1 ts),
            )
            (shown-copies id t.team 1 ts),
      )
