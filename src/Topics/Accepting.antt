-- ===== src/Topics/Accepting.antt =====
-- What PUT topics/order finds when it accepts a list (packages/backend/src/routes/topics.ts): each
-- active topic is listed, and both phases pass the unique index.
use project_dipstick.Base.{
  ℕ, suc, Bool, true, false, ◌||◌, ◌≡◌, refl, ap, ◌∙◌, some, List, [], ◌∷◌, map, arith, ◌==◌,
  ==_refl, All, any, select_rows, update_rows, count_rows, length, length-select_rows,
}
use project_dipstick.Base.Pairs.{
  Pairwise, All-follows, All-both, All-always, Pairwise-follows, Pairwise-update_rows,
  Pairwise-select_rows,
}
use project_dipstick.Topics.Defs.{JsText, TopicRow, State, active_in}
use project_dipstick.Topics.Names.{sort_rows}
use project_dipstick.Topics.Changes.{active_rows}
use project_dipstick.Topics.Reorder.{
  update_checked, distinct_ids, in_order, set_negative, is_set_below, set_positive, with_ordinality,
  is_current_set, has_id,
}
use project_dipstick.Topics.Tidy.{AreApart, IsCounted, IsTidy, clashes-ids}
use project_dipstick.Topics.Copying.{Pairwise-sort_rows}
use project_dipstick.Topics.Reordering.{first_written}
use project_dipstick.Topics.Ids.{
  IsDistinct, distinct_ids-IsDistinct, is_current_set-has_id, is_listed-has_id,
}
use project_dipstick.Topics.Sorted.{length-sort_rows, any-sort_rows}
use project_dipstick.Topics.Placing.{
  update_checked-succeeds, IsListed, Place-of, first-passes, second-passes, PassEachOther, Passes,
}

-- The ids of the team's active topics, as they are shown.
abbrev pub current_ids : ℕ → State → List ℕ
current_ids team s = map (λ r. r.id) (sort_rows (active_rows team s))

abbrev pub phase_rows : ℕ → List (ℕ × ℕ) → List TopicRow → List TopicRow
phase_rows team v rows =
    update_rows (is_set_below team) set_positive
      (update_rows (in_order team v) (set_negative v) rows)

-- A row's id is among those that are shown.
active-member :
    (p : TopicRow → Bool) (rows : List TopicRow)
    → All (λ x. p x ≡ true → any (λ r. r.id == x.id) (select_rows p rows) ≡ true) rows
unfolding select_rows
active-member p [] = tt
active-member p (t ∷ ts) = (
  λ e. rw (e) (rw (==_refl t.id) refl),
  All-follows (λ x. p x ≡ true → any (λ r. r.id == x.id) (select_rows p ts) ≡ true)
      (λ x. p x ≡ true → any (λ r. r.id == x.id) (select_rows p (t ∷ ts)) ≡ true) ts
      (λ x h e. ground (arith, h e)) (active-member p ts),
)

has_id-map :
    (rows : List TopicRow) (y : ℕ) → has_id (map (λ r. r.id) rows) y ≡ any (λ r. r.id == y) rows
has_id-map [] y = refl
has_id-map (r ∷ rs) y = ap (λ b. (r.id == y) || b) (has_id-map rs y)

pub All-IsListed :
    (team : ℕ) (order : List ℕ) (s : State)
    → IsDistinct order
    → is_current_set order (current_ids team s) ≡ true
    → All (IsListed team (with_ordinality 1 order)) s.topics
All-IsListed team order s d h =
    All-follows (λ x. active_in team x ≡ true → any (λ r. r.id == x.id) (active_rows team s) ≡ true)
      (IsListed team (with_ordinality 1 order)) s.topics
      (λ x k e.
        is_listed-has_id 1 order x.id
        ∙ is_current_set-has_id order (current_ids team s) x.id d h (
            has_id-map (sort_rows (active_rows team s)) x.id
            ∙ any-sort_rows (λ r. r.id == x.id) (active_rows team s)
            ∙ k e))
      (active-member (active_in team) s.topics)

ids-IsDistinct :
    (rows : List TopicRow)
    → Pairwise (λ a b. (a.id == b.id) ≡ false) rows
    → IsDistinct (map (λ r. r.id) rows)
ids-IsDistinct [] a = tt
ids-IsDistinct (t ∷ ts) (a, rest) = (missing t ts a, ids-IsDistinct ts rest)
  where
    missing :
        (t : TopicRow) (ts : List TopicRow)
        → All (λ b. (t.id == b.id) ≡ false) ts
        → has_id (map (λ r. r.id) ts) t.id ≡ false
    missing t [] a = refl
    missing t (u ∷ us) (a, rest) = ground (arith, a, missing t us rest)

pub length-map : (rows : List TopicRow) → length (map (λ r. r.id) rows) ≡ length rows
length-map [] = refl
length-map (r ∷ rs) = ap suc (length-map rs)

-- As many ids as active topics.
pub order-length :
    (js : JsText) (team : ℕ) (order : List ℕ) (s : State)
    → IsTidy js false s
    → is_current_set order (current_ids team s) ≡ true
    → length order ≡ count_rows (active_in team) s.topics
unfolding is_current_set
order-length js team order s tidy h =
    let rows = active_rows team s in
    let ids : Pairwise (λ a b. (a.id == b.id) ≡ false) (sort_rows rows) =
      Pairwise-sort_rows (λ a b. (a.id == b.id) ≡ false) rows (λ x y e. ground (arith, e))
        (Pairwise-select_rows (λ a b. (a.id == b.id) ≡ false) (active_in team) s.topics
          (Pairwise-follows {0, 0, 0, 0} (λ a b. (a.id == b.id) ≡ false) (AreApart js false)
            (λ t. Unit) s.topics (λ x y _ _ e. clashes-ids js false x y e)
            (All-always (λ t. Unit) s.topics (λ t. tt)) tidy.apart)) in
    let same : length order ≡ length (distinct_ids (current_ids team s)) = ground (arith, h) in
    same
    ∙ ap length (distinct_ids-IsDistinct (current_ids team s) (ids-IsDistinct (sort_rows rows) ids))
    ∙ length-map (sort_rows rows)
    ∙ length-sort_rows rows
    ∙ length-select_rows (active_in team) s.topics

-- Both phases pass the index.
pub phases-succeed :
    (js : JsText) (team : ℕ) (order : List ℕ) (s : State)
    → IsTidy js false s
    → All (IsListed team (with_ordinality 1 order)) s.topics
    → let v = with_ordinality 1 order in
      (update_checked (in_order team v) (set_negative v) [] s.topics
        ≡ some (update_rows (in_order team v) (set_negative v) s.topics))
      × (update_checked
            (is_set_below team)
            set_positive
            []
            (update_rows (in_order team v) (set_negative v) s.topics)
          ≡ some (phase_rows team v s.topics))
phases-succeed js team order s tidy listed =
    let v = with_ordinality 1 order in
    let mid = update_rows (in_order team v) (set_negative v) s.topics in
    let Known : TopicRow → Type 0 = λ x. IsListed team v x × IsCounted x in
    let known = All-both (IsListed team v) IsCounted s.topics listed tidy.counted in
    (
      update_checked-succeeds (in_order team v) (set_negative v) [] s.topics
          (All-always (Passes (in_order team v) (set_negative v) []) s.topics (λ x e. tt))
          (Pairwise-follows (PassEachOther (in_order team v) (set_negative v)) (AreApart js false)
            Known s.topics
            (λ x y kx ky h.
              first-passes team order x y (clashes-ids js false x y h) ky.1
                (Place-of team order x kx.0) (Place-of team order y ky.0))
            known tidy.apart),
      update_checked-succeeds (is_set_below team) set_positive [] mid
          (All-always (Passes (is_set_below team) set_positive []) mid (λ x e. tt))
          (Pairwise-update_rows (PassEachOther (is_set_below team) set_positive) (in_order team v)
            (set_negative v) s.topics
            (Pairwise-follows
              (λ x y.
                PassEachOther (is_set_below team) set_positive (first_written team v x)
                  (first_written team v y))
              (AreApart js false) Known s.topics
              (λ x y kx ky h.
                second-passes team order x y (clashes-ids js false x y h)
                  (Place-of team order x kx.0) (Place-of team order y ky.0))
              known tidy.apart)),
    )
