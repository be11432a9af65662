-- ===== src/Sessions/Lifecycle.antt =====
-- The life of a session under requests handled one at a time: the relation between its rows before
-- and after a request, and the rules by which each route is shown to respect it.
use project_dipstick.Base.{
  ℕ, Bool, true, ◌≡◌, refl, ◌⊎◌, inl, inr, Option, none, some, List, arith, Bool-cases,
  Option-cases, if◌then◌else◌, update_rows,
}
use project_dipstick.Sessions.Defs.{
  Session, SessionStatus, draft, lobby, pre_session, active, wrap_up, complete,
}
use project_dipstick.Sessions.Lookup.{find_session-update_rows, find_session-update_rows-none}
use project_dipstick.Sessions.Replies.{Reply}
use project_dipstick.Sessions.Store.{
  Store, find_session, Checked, refused, granted, after_check, write_template_denial,
}

infix 40 ◌⟶◌
pub data ◌⟶◌ : SessionStatus → SessionStatus → Type 0 where
  opens : draft ⟶ lobby
  starts : lobby ⟶ pre_session
  votes : pre_session ⟶ active
  wraps_up : active ⟶ wrap_up
  completes : wrap_up ⟶ complete

-- A session keeps its status, or its facilitator has moved it along one edge.
abbrev pub Follows : ℕ → Session → Session → Type 0
Follows caller r r' =
    (r'.status ≡ r.status) ⊎ ((r.status ⟶ r'.status) × (r.facilitator_id ≡ caller))

-- So it is for every session; and none vanishes.
abbrev pub Moves : ℕ → List Session → List Session → Type 0
Moves caller rows rows' =
    (id : ℕ) (r : Session)
    → find_session id rows ≡ some r
    → (r' : Session) × (find_session id rows' ≡ some r') × Follows caller r r'

-- Only a session in its active phase has a current topic.
abbrev pub IsSound : Session → Type 0
IsSound r = (r.status ≡ active) ⊎ (r.current_topic_id ≡ none)

abbrev pub AllSound : List Session → Type 0
AllSound rows = (id : ℕ) (r : Session) → find_session id rows ≡ some r → IsSound r

-- What a request leaves behind: every session has moved as it may, and stays sound.
abbrev pub Keeps : ℕ → List Session → List Session → Type 0
Keeps caller rows rows' = Moves caller rows rows' × AllSound rows'

pub some-injective : {r r' : Session} {o : Option Session} → o ≡ some r → o ≡ some r' → r' ≡ r
some-injective e e' = cc

pub Keeps-refl : (caller : ℕ) (rows : List Session) → AllSound rows → Keeps caller rows rows
Keeps-refl caller rows h = (λ id r e. (r, e, inl refl), h)

pub Keeps-same :
    (caller : ℕ) (rows rows' : List Session)
    → AllSound rows
    → rows' ≡ rows
    → Keeps caller rows rows'
Keeps-same caller rows rows' h same = rw same (Keeps-refl caller rows h)

module _ (id : ℕ) (p : Session → Bool) (f : Session → Session) (rows : List Session)
    (same : (x : Session) → (f x).id ≡ x.id) where
  updated :
      (r r' : Session)
      → find_session id rows ≡ some r
      → find_session id (update_rows p f rows) ≡ some r'
      → r' ≡ (if p r then f r else r)
  updated r r' e e' = some-injective (find_session-update_rows id p f rows r same e) e'

-- An UPDATE that reaches only rows that may move, and leaves them sound.
pub Keeps-update :
    (caller : ℕ) (rows : List Session) (p : Session → Bool) (f : Session → Session)
    → AllSound rows
    → ((x : Session) → (f x).id ≡ x.id)
    → ((id : ℕ) (r : Session)
        → find_session id rows ≡ some r
        → p r ≡ true
        → Follows caller r (f r) × IsSound (f r))
    → Keeps caller rows (update_rows p f rows)
Keeps-update caller rows p f h same ok = (moves, sounds)
  where
    moves : Moves caller rows (update_rows p f rows)
    moves id r e = elim (Bool-cases (p r)) [
      | inl hit ↦
          (f r, rw (find_session-update_rows id p f rows r same e, hit) refl, (ok id r e hit).0)
      | inr miss ↦ (r, rw (find_session-update_rows id p f rows r same e, miss) refl, inl refl)
    ]

    sounds : AllSound (update_rows p f rows)
    sounds id r' e' = elim (Option-cases (find_session id rows)) [
      | inl missing ↦ absurd (find_session-update_rows-none id p f rows r' same missing e')
      | inr (r, e) ↦ elim (Bool-cases (p r)) [
        | inl hit ↦ rw (updated id p f rows same r r' e e', hit) ((ok id r e hit).1)
        | inr miss ↦ rw (updated id p f rows same r r' e e', miss) (h id r e)
      ]
    ]

-- A check that refuses leaves the sessions alone; one that grants has established `P`.
abbrev pub Sound : {T : Type 0} → Store → (T → Type 0) → Checked T Reply → Type 0
Sound s P (refused s' r) = s'.sessions ≡ s.sessions
Sound s P (granted t) = P t

pub after_check-Keeps :
    {T : Type 0} (caller : ℕ) (s : Store) (P : T → Type 0) (c : Checked T Reply)
    (k : T → Store × Reply)
    → AllSound s.sessions
    → Sound s P c
    → ((t : T) → P t → Keeps caller s.sessions (k t).0.sessions)
    → Keeps caller s.sessions (after_check c k).0.sessions
after_check-Keeps caller s P (refused s' r) k h sound ok =
    Keeps-same caller s.sessions s'.sessions h sound
after_check-Keeps caller s P (granted t) k h sound ok = ok t sound

pub write_template_denial-sessions :
    (actor endpoint now : ℕ) (s : Store)
    → (write_template_denial actor endpoint now s).sessions ≡ s.sessions
unfolding write_template_denial
write_template_denial-sessions actor endpoint now s = ground arith
