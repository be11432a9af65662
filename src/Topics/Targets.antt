-- ===== src/Topics/Targets.antt =====
-- A row that is restored, among the other rows of its table.
use Prim.Native.String.{String}
use mathlib.Core.Option
use project_dipstick.Base.{
  ℕ, Bool, true, false, ◌||◌, ◌≡◌, refl, sym, ap, ◌∙◌, inl, inr, some, List, [], ◌∷◌, arith, ◌==◌,
  if◌then◌else◌, All, Bool-cases, any, find_row, select_rows, update_rows, find_row-update_rows,
}
use project_dipstick.Base.Int.{ℤ, pos, eq_int, lt_int, lt_int_irrefl, eq_int_refl}
use project_dipstick.Base.Pairs.{
  Pairwise, All-follows, All-both, All-update_rows, All-select_rows, All-unselect,
}
use project_dipstick.Topics.Defs.{JsText, TopicRow, active_in, topic_in}
use project_dipstick.Topics.Names.{same_name}
use project_dipstick.Topics.Changes.{max_order, position_after, is_archived_topic, restore_row}
use project_dipstick.Topics.Free.{position_after-upper, max_order-reached}
use project_dipstick.Topics.Tidy.{AreApart, clashes-ids}

-- A search by id finds each row.
pub find_each :
    (js : JsText) (names : Bool) (team : ℕ) (rows : List TopicRow)
    → Pairwise (AreApart js names) rows
    → All (λ l. (l.team_id == team) ≡ true → find_row (topic_in team l.id) rows ≡ some l) rows
unfolding find_row
find_each js names team [] a = tt
find_each js names team (t ∷ ts) (a, rest) = (
  λ e. ground (arith, e),
  All-follows
      (λ l.
        AreApart js names t l
        × ((l.team_id == team) ≡ true → find_row (topic_in team l.id) ts ≡ some l))
      (λ l. (l.team_id == team) ≡ true → find_row (topic_in team l.id) (t ∷ ts) ≡ some l) ts
      (λ l h e. ground (arith, h.1 e, clashes-ids js names t l h.0))
      (All-both (AreApart js names t)
        (λ l. (l.team_id == team) ≡ true → find_row (topic_in team l.id) ts ≡ some l) ts a
        (find_each js names team ts rest)),
)

none-archived :
    (js : JsText) (names : Bool) (team : ℕ) (t : TopicRow) (ts : List TopicRow)
    → All (AreApart js names t) ts
    → select_rows (is_archived_topic team t.id) ts ≡ []
unfolding select_rows
none-archived js names team t [] a = refl
none-archived js names team t (u ∷ us) (a, rest) =
    ground (arith, clashes-ids js names t u a, none-archived js names team t us rest)

-- The rows that the UPDATE of a restore touches: just the target.
pub select_rows-target :
    (js : JsText) (names : Bool) (team : ℕ) (rows : List TopicRow) (l : TopicRow)
    → Pairwise (AreApart js names) rows
    → find_row (topic_in team l.id) rows ≡ some l
    → l.is_active ≡ false
    → select_rows (is_archived_topic team l.id) rows ≡ l ∷ []
unfolding select_rows find_row
select_rows-target js names team [] l a e shut = absurd (ground (arith, e))
select_rows-target js names team (t ∷ ts) l (a, rest) e shut =
    elim (Bool-cases (topic_in team l.id t)) [
      | inl hit ↦
          let same : some t ≡ some l = rw (hit, find_row) at e in
          let is_target = (Option.some_inj).0 same in
          let others : select_rows (is_archived_topic team l.id) ts ≡ [] =
            rw (sym (ap (λ u. u.id) is_target)) (none-archived js names team t ts a) in
          ground (arith, hit, others, is_target, shut, ap (λ u. u.is_active) is_target)
      | inr miss ↦
          let later : find_row (topic_in team l.id) ts ≡ some l = rw (miss, find_row) at e in
          ground (arith, miss, select_rows-target js names team ts l rest later shut)
    ]

-- The restore of one topic leaves the search for another alone.
pub find_row-restore :
    (team now user : ℕ) (p : ℤ) (l k : TopicRow) (rows : List TopicRow)
    → (l.id == k.id) ≡ false
    → find_row (topic_in team k.id) rows ≡ some k
    → find_row
        (topic_in team k.id)
        (update_rows (is_archived_topic team l.id) (restore_row now user p) rows)
      ≡ some k
find_row-restore team now user p l k rows other found =
    find_row-update_rows (topic_in team k.id) (is_archived_topic team l.id) (restore_row now user p)
      rows (λ x. refl)
    ∙ ground (arith, found, other)

-- A test that a restore does not change: on the active rows of before and on the target.
any-restore :
    (q : TopicRow → Bool) (team now user id : ℕ) (p : ℤ) (rows : List TopicRow)
    → ((u : TopicRow) → q (restore_row now user p u) ≡ q u)
    → any q (
        select_rows
          (active_in team)
          (update_rows (is_archived_topic team id) (restore_row now user p) rows))
      ≡ (any q (select_rows (is_archived_topic team id) rows)
          || any q (select_rows (active_in team) rows))
unfolding select_rows update_rows
any-restore q team now user id p [] h = refl
any-restore q team now user id p (t ∷ ts) h =
    ground (arith, h t, any-restore q team now user id p ts h)

-- The names of the active topics after a restore.
pub any-same_name :
    (js : JsText) (team now user : ℕ) (p : ℤ) (l : TopicRow) (rows : List TopicRow) (name : String)
    → select_rows (is_archived_topic team l.id) rows ≡ l ∷ []
    → any
        (λ u. same_name js u.content.name name)
        (select_rows
          (active_in team)
          (update_rows (is_archived_topic team l.id) (restore_row now user p) rows))
      ≡ (same_name js l.content.name name
          || any (λ u. same_name js u.content.name name) (select_rows (active_in team) rows))
any-same_name js team now user p l rows name one =
    any-restore (λ u. same_name js u.content.name name) team now user l.id p rows (λ u. refl)
    ∙ ground (arith, one)

any-at :
    (team now user id : ℕ) (p : ℤ) (rows : List TopicRow)
    → any (λ u. true) (select_rows (is_archived_topic team id) rows) ≡ true
    → any
        (λ u. eq_int u.display_order p)
        (select_rows
          (active_in team)
          (update_rows (is_archived_topic team id) (restore_row now user p) rows))
      ≡ true
unfolding select_rows update_rows
any-at team now user id p [] h = absurd (ground (arith, h))
any-at team now user id p (t ∷ ts) h =
    ground (arith, h, eq_int_refl p, any-at team now user id p ts)

restored-upper :
    (team now user id : ℕ) (p : ℤ) (rows : List TopicRow)
    → All (λ u. active_in team u ≡ true → lt_int p u.display_order ≡ false) rows
    → All
        (λ u. lt_int p u.display_order ≡ false)
        (select_rows
          (active_in team)
          (update_rows (is_archived_topic team id) (restore_row now user p) rows))
restored-upper team now user id p rows a =
    All-select_rows (λ u. lt_int p u.display_order ≡ false) (active_in team)
      (update_rows (is_archived_topic team id) (restore_row now user p) rows)
      (All-update_rows (λ u. active_in team u ≡ true → lt_int p u.display_order ≡ false)
        (is_archived_topic team id) (restore_row now user p) rows
        (All-follows (λ u. active_in team u ≡ true → lt_int p u.display_order ≡ false)
          (λ u.
            active_in team (if is_archived_topic team id u then restore_row now user p u else u)
              ≡ true
            → lt_int p
                (if is_archived_topic team id u then restore_row now user p u else u).display_order
              ≡ false)
          rows
          (λ u h. elim (Bool-cases (is_archived_topic team id u)) [
            | inl hit ↦ rw (hit) (λ _. lt_int_irrefl p)
            | inr miss ↦ rw (miss) h
          ])
          a))

-- A restored topic has the greatest position.
pub max_order-restore :
    (team now user : ℕ) (l : TopicRow) (rows : List TopicRow)
    → select_rows (is_archived_topic team l.id) rows ≡ l ∷ []
    → max_order (
        select_rows (active_in team) (
          update_rows
            (is_archived_topic team l.id)
            (restore_row now user
              (position_after (pos 0) (max_order (select_rows (active_in team) rows))))
            rows))
      ≡ some (position_after (pos 0) (max_order (select_rows (active_in team) rows)))
max_order-restore team now user l rows one =
    let act = select_rows (active_in team) rows in
    let p = position_after (pos 0) (max_order act) in
    let after =
      select_rows (active_in team)
        (update_rows (is_archived_topic team l.id) (restore_row now user p) rows) in
    max_order-reached p after
      (restored-upper team now user l.id p rows (
        All-unselect (λ u. lt_int p u.display_order ≡ false) (active_in team) rows
          (position_after-upper (pos 0) act)))
      (any-at team now user l.id p rows (rw (one) refl))
