-- ===== src/Topics/Joining.antt =====
-- The rules of the table under the transactions that add, copy and restore topics.
use Prim.Native.String.{String}
use project_dipstick.Base.{
  ℕ, suc, ◌<◌, Bool, true, false, ◌≡◌, refl, ap, inl, inr, none, List, ◌∷◌, arith, ◌==◌, ==_iff,
  if◌then◌else◌, All, Bool-cases, Option-cases, find_row, select_rows, update_rows,
}
use project_dipstick.Base.Int.{ℤ, pos, negsuc, eq_int, is_negative, add_one}
use project_dipstick.Base.Pairs.{
  All-follows, All-both, Pairwise-follows, All-update_rows, Pairwise-update_rows, All-unselect,
  All-select_rows,
}
use project_dipstick.Topics.Defs.{JsText, TopicRow, State, active_in, topic_in}
use project_dipstick.Topics.Gates.{Ticket}
use project_dipstick.Topics.Names.{same_name, find_active_name_conflict}
use project_dipstick.Topics.Changes.{
  active_rows, max_order, position_after, NewTopic, new_row, insert_custom, commit_add,
  restore_target, commit_restore, is_archived_topic, restore_row,
}
use project_dipstick.Topics.Free.{
  position_after-free, position_after-negative, find_active_name_conflict-none,
}
use project_dipstick.Topics.Tidy.{
  clashes, AreApart, IsCounted, IsTidy, LeavesRoom, joins, clashes_sym, clashes-ids, only_row,
}

-- Behind the greatest position and under a name without conflict there is room.
pub All-LeavesRoom :
    (js : JsText) (team : ℕ) (x : ℤ) (name : String) (rows : List TopicRow)
    → find_active_name_conflict js (select_rows (active_in team) rows) name ≡ none
    → All
        (LeavesRoom js team (position_after x (max_order (select_rows (active_in team) rows))) name)
        rows
All-LeavesRoom js team x name rows free =
    let act = select_rows (active_in team) rows in
    let p = position_after x (max_order act) in
    let Apart : TopicRow → Type 0 = λ u. eq_int u.display_order p ≡ false in
    let Other : TopicRow → Type 0 = λ u. same_name js u.content.name name ≡ false in
    All-unselect (λ u. Apart u × Other u) (active_in team) rows
      (All-both Apart Other act (position_after-free x act)
        (find_active_name_conflict-none js act name free))

counted-active :
    (team : ℕ) (rows : List TopicRow)
    → All IsCounted rows
    → All (λ u. is_negative u.display_order ≡ false) (select_rows (active_in team) rows)
counted-active team rows counted =
    All-select_rows (λ u. is_negative u.display_order ≡ false) (active_in team) rows
      (All-follows IsCounted (λ u. active_in team u ≡ true → is_negative u.display_order ≡ false)
        rows (λ u h a. ground (arith, h, a)) counted)

pub position-counted :
    (team : ℕ) (x : ℤ) (rows : List TopicRow)
    → is_negative (add_one x) ≡ false
    → All IsCounted rows
    → is_negative (position_after x (max_order (select_rows (active_in team) rows))) ≡ false
position-counted team x rows start counted =
    position_after-negative x (select_rows (active_in team) rows) start
      (counted-active team rows counted)

-- A row in front, with an id to come.
insert-IsTidy :
    (js : JsText) (names : Bool) (t : TopicRow) (s : State)
    → t.id ≡ s.next_id
    → is_negative t.display_order ≡ false
    → All (LeavesRoom js t.team_id t.display_order t.content.name) s.topics
    → IsTidy js names s
    → IsTidy js names (record s { topics = t ∷ s.topics; next_id = suc s.next_id })
insert-IsTidy js names t s new_id up room tidy = record {
  apart = (
    All-follows (λ u. LeavesRoom js t.team_id t.display_order t.content.name u × (u.id < s.next_id))
        (AreApart js names t) s.topics
        (λ u h. (joins js names t u (ground (arith, new_id, h.1)) h.0).0)
        (All-both (LeavesRoom js t.team_id t.display_order t.content.name) (λ u. u.id < s.next_id)
          s.topics room tidy.known),
    tidy.apart,
  );
  counted = (λ _. up, tidy.counted);
  known = (
    omega (arith, new_id),
    All-follows (λ u. u.id < s.next_id) (λ u. u.id < suc s.next_id) s.topics
        (λ u h. omega (arith, h)) tidy.known,
  );
}

pub commit_add-IsTidy :
    (js : JsText) (names : Bool) (t : Ticket) (n : NewTopic) (s : State)
    → IsTidy js names s
    → IsTidy js names (commit_add js t n s).0
unfolding commit_add insert_custom is_negative add_one
commit_add-IsTidy js names t n s tidy =
    let act = active_rows t.team s in
    let order = position_after (negsuc 0) (max_order act) in
    elim (Option-cases (find_active_name_conflict js act n.name)) [
      | inr (c, taken) ↦ rw (taken, commit_add) tidy
      | inl free ↦
          let next =
            insert-IsTidy js names (new_row s.next_id t.team order n) s refl
              (position-counted t.team (negsuc 0) s.topics refl tidy.counted)
              (All-LeavesRoom js t.team (negsuc 0) n.name s.topics free) tidy in
          rw (free, commit_add)
            (record { apart = next.apart; counted = next.counted; known = next.known })
    ]

-- What a restore knows of each row: there is room, and the target's id is its own.
abbrev Restorable : JsText → ℕ → ℤ → TopicRow → TopicRow → Type 0
Restorable js team p r u = LeavesRoom js team p r.content.name u × ((u.id == r.id) ≡ true → u ≡ r)

restored_joins :
    (js : JsText) (names : Bool) (now user team : ℕ) (p : ℤ) (r x y : TopicRow)
    → is_archived_topic team r.id x ≡ true
    → Restorable js team p r x
    → Restorable js team p r y
    → clashes js names x y ≡ false
    → (clashes js names (restore_row now user p x) y ≡ false)
      × (clashes js names y (restore_row now user p x) ≡ false)
restored_joins js names now user team p r x y hit qx qy h =
    let same_team : x.team_id ≡ team = (==_iff x.team_id team).0 (ground (arith, hit)) in
    let is_target : x ≡ r = qx.1 (ground (arith, hit)) in
    joins js names (restore_row now user p x) y (clashes-ids js names x y h)
      (rw (same_team, ap (λ t. t.content.name) is_target) qy.0)

restored_apart :
    (js : JsText) (names : Bool) (now user team : ℕ) (p : ℤ) (r x y : TopicRow)
    → Restorable js team p r x
    → Restorable js team p r y
    → clashes js names x y ≡ false
    → clashes js names y x ≡ false
    → clashes js names
        (if is_archived_topic team r.id x then restore_row now user p x else x)
        (if is_archived_topic team r.id y then restore_row now user p y else y)
      ≡ false
restored_apart js names now user team p r x y qx qy h k =
    elim (Bool-cases (is_archived_topic team r.id x)) [
      | inl hit ↦ elim (Bool-cases (is_archived_topic team r.id y)) [
        | inl hit' ↦ absurd (ground (arith, hit, hit', clashes-ids js names x y h))
        | inr miss' ↦
            rw (hit, miss') ((restored_joins js names now user team p r x y hit qx qy h).0)
      ]
      | inr miss ↦ elim (Bool-cases (is_archived_topic team r.id y)) [
        | inl hit' ↦
            rw (miss, hit') ((restored_joins js names now user team p r y x hit' qy qx k).1)
        | inr miss' ↦ rw (miss, miss') h
      ]
    ]

-- The restored row takes part under its own name, at a free position.
restore-IsTidy :
    (js : JsText) (names : Bool) (now user team : ℕ) (p : ℤ) (r : TopicRow) (s : State)
    → is_negative p ≡ false
    → All (Restorable js team p r) s.topics
    → IsTidy js names s
    → IsTidy js names (record s {
      topics = update_rows (is_archived_topic team r.id) (restore_row now user p) s.topics;
    })
restore-IsTidy js names now user team p r s up facts tidy = record {
  apart =
      Pairwise-update_rows (AreApart js names) (is_archived_topic team r.id)
        (restore_row now user p) s.topics
        (Pairwise-follows
          (λ x y.
            AreApart js names
              (if is_archived_topic team r.id x then restore_row now user p x else x)
              (if is_archived_topic team r.id y then restore_row now user p y else y))
          (AreApart js names) (Restorable js team p r) s.topics
          (λ x y qx qy h.
            restored_apart js names now user team p r x y qx qy h (clashes_sym js names x y h))
          facts tidy.apart);
  counted =
      All-update_rows IsCounted (is_archived_topic team r.id) (restore_row now user p) s.topics (
        All-follows IsCounted
          (λ x. IsCounted (if is_archived_topic team r.id x then restore_row now user p x else x))
          s.topics (λ x h. if-counted x h) tidy.counted);
  known =
      All-update_rows (λ u. u.id < s.next_id) (is_archived_topic team r.id) (restore_row now user p)
        s.topics
        (All-follows (λ u. u.id < s.next_id)
          (λ x.
            (if is_archived_topic team r.id x then restore_row now user p x else x).id < s.next_id)
          s.topics (λ x h. ground (arith, h)) tidy.known);
}
  where
    if-counted :
        (x : TopicRow)
        → IsCounted x
        → IsCounted (if is_archived_topic team r.id x then restore_row now user p x else x)
    if-counted x h = elim (Bool-cases (is_archived_topic team r.id x)) [
      | inl hit ↦ rw (hit) (λ _. up)
      | inr miss ↦ rw (miss) h
    ]

restore_target-IsTidy :
    (js : JsText) (names : Bool) (now : ℕ) (t : Ticket) (r : TopicRow) (s : State)
    → All (λ u. (u.id == r.id) ≡ true → u ≡ r) s.topics
    → IsTidy js names s
    → IsTidy js names (restore_target js now t r s).0
unfolding restore_target is_negative add_one
restore_target-IsTidy js names now t r s only tidy =
    let act = active_rows t.team s in
    elim (Option-cases (find_active_name_conflict js act r.content.name)) [
      | inr (c, taken) ↦ rw (taken, restore_target) tidy
      | inl free ↦
          let order = position_after (pos 0) (max_order act) in
          let next =
            restore-IsTidy js names now t.user t.team order r s
              (position-counted t.team (pos 0) s.topics refl tidy.counted)
              (All-both (LeavesRoom js t.team order r.content.name)
                (λ u. (u.id == r.id) ≡ true → u ≡ r) s.topics
                (All-LeavesRoom js t.team (pos 0) r.content.name s.topics free) only)
              tidy in
          rw (free, restore_target)
            (record { apart = next.apart; counted = next.counted; known = next.known })
    ]

pub commit_restore-IsTidy :
    (js : JsText) (names : Bool) (now : ℕ) (t : Ticket) (topic : ℕ) (s : State)
    → IsTidy js names s
    → IsTidy js names (commit_restore js now t topic s).0
unfolding commit_restore
commit_restore-IsTidy js names now t topic s tidy =
    elim (Option-cases (find_row (topic_in t.team topic) s.topics)) [
      | inl gone ↦ rw (gone, commit_restore) tidy
      | inr (r, found) ↦ elim (Bool-cases r.is_active) [
        | inl active ↦ rw (found, active, commit_restore) tidy
        | inr archived ↦
            rw (found, archived, commit_restore)
              (restore_target-IsTidy js names now t r s
                (only_row js names (topic_in t.team topic) s.topics r tidy.apart found) tidy)
      ]
    ]
