-- ===== src/Sessions/Lookup.antt =====
-- How a session is found after an UPDATE of the sessions table.
use project_dipstick.Base.{
  ℕ, Bool, ◌≡◌, ◌≢◌, refl, none, some, List, [], ◌∷◌, arith, ◌==◌, if◌then◌else◌, update_rows,
  find_row-update_rows,
}
use project_dipstick.Sessions.Defs.{Session}
use project_dipstick.Sessions.Store.{find_session}

pub find_session-id :
    (id : ℕ) (rows : List Session) (r : Session) → find_session id rows ≡ some r → r.id ≡ id
unfolding find_session
find_session-id id [] r e = ground arith
find_session-id id (x ∷ xs) r e = ground (arith, find_session-id id xs r)

-- The session found is the old one, changed if it passes the test.
pub find_session-update_rows :
    (id : ℕ) (p : Session → Bool) (f : Session → Session) (rows : List Session) (r : Session)
    → ((x : Session) → (f x).id ≡ x.id)
    → find_session id rows ≡ some r
    → find_session id (update_rows p f rows) ≡ some (if p r then f r else r)
unfolding find_session
find_session-update_rows id p f rows r same e =
    rw (find_row-update_rows (λ x. x.id == id) p f rows (λ x. rw (same x) refl), e) refl

-- An UPDATE makes no session appear.
pub find_session-update_rows-none :
    (id : ℕ) (p : Session → Bool) (f : Session → Session) (rows : List Session) (r : Session)
    → ((x : Session) → (f x).id ≡ x.id)
    → find_session id rows ≡ none
    → find_session id (update_rows p f rows) ≢ some r
unfolding find_session
find_session-update_rows-none id p f rows r same e =
    rw (find_row-update_rows (λ x. x.id == id) p f rows (λ x. rw (same x) refl), e) cc
