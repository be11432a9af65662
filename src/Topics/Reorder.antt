-- ===== src/Topics/Reorder.antt =====
-- The transaction of PUT topics/order (packages/backend/src/routes/topics.ts). PostgreSQL checks
-- the unique index on (team_id, display_order) of the active topics (migration 18) at each row
-- that an UPDATE writes, which is why the route writes the positions in two phases;
-- `update_checked` is such an UPDATE.
use Prim.Native.String.{String}
use project_dipstick.Base.{
  ℕ, suc, Bool, true, false, ◌&&◌, ◌||◌, not, Option, none, some, List, [], ◌∷◌, map, ◌==◌, ltb,
  if◌then◌else◌, length, any, find_row, count_rows, map_get,
}
use project_dipstick.Base.Int.{ℤ, pos, negate, is_negative, eq_int}
use project_dipstick.Sessions.Defs.{GlobalRole, Session, SessionStatus, role_is, status_is}
use project_dipstick.Topics.Defs.{TopicRow, State, TopicReply, reply, audit, active_in}
use project_dipstick.Topics.Defs as Defs
use project_dipstick.Topics.Gates.{Ticket}
use project_dipstick.Topics.Names.{sort_rows}
use project_dipstick.Topics.Changes.{active_rows}

-- The unique index holds both rows at one key.
unfoldable pub shares_position : TopicRow → TopicRow → Bool
unfolding eq_int
shares_position a b =
    (a.is_active && b.is_active)
    && (a.team_id == b.team_id && eq_int a.display_order b.display_order)

-- UPDATE, row by row: `done` are the rows it has passed. `none` is error 23505.
unfoldable pub update_checked :
    (TopicRow → Bool)
    → (TopicRow → TopicRow)
    → List TopicRow
    → List TopicRow
    → Option (List TopicRow)
unfolding shares_position
update_checked p f done [] = some []
update_checked p f done (t ∷ ts) =
    let u = if p t then f t else t in
    elim (p t && (any (shares_position u) done || any (shares_position u) ts)) [
      | true ↦ none
      | false ↦ elim (update_checked p f (u ∷ done) ts) [ none ↦ none | some us ↦ some (u ∷ us) ]
    ]

-- The elements of a Set.
unfoldable pub distinct_ids : List ℕ → List ℕ
distinct_ids [] = []
distinct_ids (x ∷ xs) =
    let rest = distinct_ids xs in if any (λ y. y == x) xs then rest else x ∷ rest

abbrev pub has_id : List ℕ → ℕ → Bool
has_id ids x = any (λ y. y == x) ids

unfoldable pub every : (ℕ → Bool) → List ℕ → Bool
every p [] = true
every p (x ∷ xs) = p x && every p xs

-- The ids of the body are just those of the active topics.
unfoldable pub is_current_set : List ℕ → List ℕ → Bool
unfolding distinct_ids every
is_current_set order current =
    length order == length (distinct_ids current) && every (has_id current) order

-- newOrder.every((id, index) => id === previousOrder[index]).
unfoldable pub is_same_order : List ℕ → List ℕ → Bool
is_same_order [] ys = true
is_same_order (x ∷ xs) [] = false
is_same_order (x ∷ xs) (y ∷ ys) = x == y && is_same_order xs ys

-- unnest(...) WITH ORDINALITY.
unfoldable pub with_ordinality : ℕ → List ℕ → List (ℕ × ℕ)
with_ordinality n [] = []
with_ordinality n (x ∷ xs) = (x, n) ∷ with_ordinality (suc n) xs

abbrev pub is_listed : Option ℕ → Bool
is_listed none = false
is_listed (some n) = true

unfoldable pub in_order : ℕ → List (ℕ × ℕ) → TopicRow → Bool
unfolding map_get
in_order team v t = active_in team t && is_listed (map_get t.id v)

unfoldable pub place_below : Option ℕ → TopicRow → TopicRow
place_below none t = t
place_below (some n) t = record t { display_order = negate (pos n) }

unfoldable pub set_negative : List (ℕ × ℕ) → TopicRow → TopicRow
unfolding map_get place_below
set_negative v t = place_below (map_get t.id v) t

unfoldable pub is_set_below : ℕ → TopicRow → Bool
is_set_below team t = active_in team t && is_negative t.display_order

unfoldable pub set_positive : TopicRow → TopicRow
set_positive t = record t { display_order = negate t.display_order }

abbrev is_open_session : ℕ → Session → Bool
is_open_session team r =
    r.team_id == team
    && (status_is r.status SessionStatus.lobby
        || status_is r.status SessionStatus.pre_session
        || status_is r.status SessionStatus.active
        || status_is r.status SessionStatus.wrap_up)

abbrev or_created : Option ℕ → ℕ → ℕ
or_created none c = c
or_created (some o) c = o

abbrev later : ℕ → Option ℕ → ℕ
later a none = a
later a (some b) = if ltb a b then b else a

-- The latest opening time of the team's open sessions.
unfoldable pub latest_opening : (ℕ → ℕ) → ℕ → List Session → Option ℕ
latest_opening created team [] = none
latest_opening created team (r ∷ rs) =
    let rest = latest_opening created team rs in
    if is_open_session team r
    then some (later (or_created r.room_opened_at (created r.id)) rest)
    else rest

-- readOpenSessionCreatedAt.
unfoldable pub open_session_created_at : Ticket → State → Option ℕ
unfolding latest_opening
open_session_created_at t s =
    if not (role_is t.role GlobalRole.facilitator)
    then none
    else latest_opening s.session_created_at t.team s.sessions

-- A name is looked up among the rows that were read first.
unfoldable pub name_of : ℕ → List TopicRow → String
unfolding find_row
name_of id rows = elim (find_row (λ r. r.id == id) rows) [ none ↦ "" | some r ↦ r.content.name ]

unfoldable pub list_order : ℕ → List ℕ → List TopicRow → List (ℕ × String × ℤ)
unfolding name_of
list_order n [] rows = []
list_order n (x ∷ xs) rows = (x, name_of x rows, pos n) ∷ list_order (suc n) xs rows

abbrev pub list_rows : List TopicRow → List (ℕ × String × ℤ)
list_rows rows = map (λ r. (r.id, r.content.name, r.display_order)) rows

abbrev failed : State → State × TopicReply
failed s = (s, reply 500 Defs.internal_error)

unfoldable pub finish_reorder :
    Ticket → List ℕ → List TopicRow → List TopicRow → State → State × TopicReply
unfolding open_session_created_at list_order
finish_reorder t order current rows s = (
  audit t.user (some t.role) (Defs.reordered (map (λ r. r.id) current) order) t.team
      (record s { topics = rows }),
  reply 200 (Defs.topic_order (list_order 1 order current) (open_session_created_at t s)),
)

-- The second phase, on the rows of the first one.
unfoldable pub second_phase :
    Ticket → List ℕ → List TopicRow → Option (List TopicRow) → State → State × TopicReply
unfolding update_checked is_set_below set_positive finish_reorder
second_phase t order current none s = failed s
second_phase t order current (some rows) s =
    elim (update_checked (is_set_below t.team) set_positive [] rows) [
      | none ↦ failed s
      | some rows' ↦
          if not (count_rows (is_set_below t.team) rows == length order)
          then failed s
          else finish_reorder t order current rows' s
    ]

unfoldable pub write_order : Ticket → List ℕ → List TopicRow → State → State × TopicReply
unfolding second_phase in_order set_negative with_ordinality
write_order t order current s =
    let v = with_ordinality 1 order in
    if not (count_rows (in_order t.team v) s.topics == length order)
    then failed s
    else second_phase t order current
        (update_checked (in_order t.team v) (set_negative v) [] s.topics) s

unfoldable pub commit_reorder : Ticket → List ℕ → State → State × TopicReply
unfolding is_current_set is_same_order write_order open_session_created_at sort_rows
commit_reorder t order s =
    let current = sort_rows (active_rows t.team s) in
    let previous = map (λ r. r.id) current in
    if not (is_current_set order previous)
    then (s, reply 409 Defs.topic_order_stale)
    else if is_same_order order previous
    then (s, reply 200 (Defs.topic_order (list_rows current) (open_session_created_at t s)))
    else write_order t order current s
