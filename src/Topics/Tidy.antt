-- ===== src/Topics/Tidy.antt =====
-- The invariant of the table topics: its primary key, its unique index and, as far as asked, the
-- rule on names.
use Prim.Native.String.{String}
use mathlib.Core.Option
use project_dipstick.Base.{
  ℕ, ◌<◌, Bool, true, false, ◌&&◌, ◌||◌, ◌≡◌, refl, sym, ap, ◌∙◌, inl, inr, some, List, [], ◌∷◌,
  arith, ◌==◌, All, Bool-cases, find_row,
}
use project_dipstick.Base.Int.{ℤ, eq_int, is_negative, eq_int_sym}
use project_dipstick.Base.Pairs.{Pairwise, All-find_row, All-follows}
use project_dipstick.Topics.Defs.{JsText, TopicRow, State, active_in}
use project_dipstick.Topics.Names.{topic_key, same_name}
use project_dipstick.Topics.Reorder.{shares_position}
use text.Mathlib.Text as Text
use text.Mathlib.TextEquality.{eq_iff}

-- Two rows that may not stand in the table together: one id, or two active topics of one team with
-- one position or, where `names` asks for it, with names that match.
unfoldable pub clashes : JsText → Bool → TopicRow → TopicRow → Bool
unfolding shares_position same_name
clashes js names a b =
    a.id == b.id
    || (shares_position a b
        || (names
            && ((a.is_active && b.is_active)
                && (a.team_id == b.team_id && same_name js a.content.name b.content.name))))

abbrev pub AreApart : JsText → Bool → TopicRow → TopicRow → Type 0
AreApart js names a b = clashes js names a b ≡ false

abbrev pub IsCounted : TopicRow → Type 0
IsCounted t = t.is_active ≡ true → is_negative t.display_order ≡ false

-- No two rows clash, the positions of active topics are not negative, and no id is yet to come.
pub record IsTidy (js : JsText) (names : Bool) (s : State) : Type 0 where
  pub apart : Pairwise (AreApart js names) s.topics
  pub counted : All IsCounted s.topics
  pub known : All (λ t. t.id < s.next_id) s.topics

text_sym : (a b : String) → Text.◌==◌ a b ≡ Text.◌==◌ b a
text_sym a b = elim (Bool-cases (Text.◌==◌ a b)) [
  | inl same ↦ rw ((eq_iff a b).0 same) refl
  | inr other ↦ elim (Bool-cases (Text.◌==◌ b a)) [
    | inl same ↦ rw ((eq_iff b a).0 same) refl
    | inr other' ↦ other ∙ sym other'
  ]
]

pub same_name_sym : (js : JsText) (a b : String) → same_name js a b ≡ same_name js b a
unfolding same_name
same_name_sym js a b = text_sym (topic_key js a) (topic_key js b)

-- What a row must be given, so that a topic of this team may join with this position and name.
abbrev pub LeavesRoom : JsText → ℕ → ℤ → String → TopicRow → Type 0
LeavesRoom js team p name u =
    active_in team u ≡ true
    → (eq_int u.display_order p ≡ false) × (same_name js u.content.name name ≡ false)

-- A topic with that position and name, and another id, clashes with no row that leaves room.
pub joins :
    (js : JsText) (names : Bool) (t u : TopicRow)
    → (t.id == u.id) ≡ false
    → LeavesRoom js t.team_id t.display_order t.content.name u
    → (clashes js names t u ≡ false) × (clashes js names u t ≡ false)
unfolding clashes shares_position
joins js names t u other room = (
  ground (
    arith,
    other,
    room,
    eq_int_sym t.display_order u.display_order,
    same_name_sym js t.content.name u.content.name,
  ),
  ground (arith, other, room),
)

pub clashes_sym :
    (js : JsText) (names : Bool) (t u : TopicRow)
    → clashes js names t u ≡ false
    → clashes js names u t ≡ false
unfolding clashes shares_position
clashes_sym js names t u h = ground (
  arith,
  h,
  eq_int_sym t.display_order u.display_order,
  same_name_sym js t.content.name u.content.name,
)

pub clashes-ids :
    (js : JsText) (names : Bool) (t u : TopicRow)
    → clashes js names t u ≡ false
    → (t.id == u.id) ≡ false
unfolding clashes
clashes-ids js names t u h = ground (arith, h)

-- The row that a search by id finds is the only one of that id.
pub only_row :
    (js : JsText) (names : Bool) (p : TopicRow → Bool) (rows : List TopicRow) (r : TopicRow)
    → Pairwise (AreApart js names) rows
    → find_row p rows ≡ some r
    → All (λ u. (u.id == r.id) ≡ true → u ≡ r) rows
unfolding find_row
only_row js names p [] r a e = tt
only_row js names p (t ∷ ts) r (a, rest) e = elim (Bool-cases (p t)) [
  | inl hit ↦
      let same : some t ≡ some r = rw (hit, find_row) at e in
      let found = (Option.some_inj).0 same in
      (
        λ _. found,
        All-follows (AreApart js names t) (λ u. (u.id == r.id) ≡ true → u ≡ r) ts
            (λ u h e'.
              absurd (ground (arith, e', clashes-ids js names t u h, ap (λ t. t.id) found)))
            a,
      )
  | inr miss ↦
      let later : find_row p ts ≡ some r = rw (miss, find_row) at e in
      (
        λ e'. absurd (
            ground (
              arith,
              clashes-ids js names t r (All-find_row (AreApart js names t) p ts r a later),
            )),
        only_row js names p ts r rest later,
      )
]
