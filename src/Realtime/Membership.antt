-- ===== src/Realtime/Membership.antt =====
-- The connections that the registry holds under a session or a team, after each operation.
use project_dipstick.Base.{
  ℕ, Bool, true, false, not, ◌≡◌, refl, ap, ◌||◌, ◌&&◌, Option, none, some, [], ◌∷◌, ◌++◌, arith,
  ◌==◌, if◌then◌else◌, select_rows, map_get, map_get-map_set, map_get-map_delete,
}
use project_dipstick.Realtime.Registry.{
  Scope, session, team, Connection, ConnectionSet, Hub, has, add_to, remove_from, drop_from,
  register, deregister, candidates, shrink, clear_timers,
}

has-append : (id : ℕ) (xs ys : ConnectionSet) → has id (xs ++ ys) ≡ (has id xs || has id ys)
has-append id [] ys = refl
has-append id (x ∷ xs) ys = ground (arith, has-append id xs ys)

has-add_to :
    (id : ℕ) (c : Connection) (set : ConnectionSet)
    → has id (add_to c set) ≡ (c.id == id || has id set)
unfolding add_to
has-add_to id c set = ground (arith, has-append id set (c ∷ []))

has-remove_from :
    (id c : ℕ) (set : ConnectionSet) → has id (remove_from c set) ≡ (not (id == c) && has id set)
unfolding remove_from select_rows
has-remove_from id c [] = ground arith
has-remove_from id c (x ∷ set) = ground (arith, has-remove_from id c set)

abbrev pub same_scope : Scope → Scope → Bool
same_scope session session = true
same_scope team team = true
same_scope _ _ = false

abbrev set_of : Option ConnectionSet → ConnectionSet
set_of none = []
set_of (some set) = set

has-set_of :
    (k : ℕ) (b : Bool) (x y : Option ConnectionSet)
    → has k (set_of (if b then x else y)) ≡ (if b then has k (set_of x) else has k (set_of y))
has-set_of k true x y = refl
has-set_of k false x y = refl

module _ {M : Type 0} where
  -- A registered connection is a candidate under its scope and key, from then on; and no other
  -- membership changes.
  pub candidates-register :
      (scope other : Scope) (id j k : ℕ) (c : Connection) (h : Hub M)
      → has k (candidates other j (register scope id c h))
        ≡ ((same_scope scope other && id == j && c.id == k) || has k (candidates other j h))
  unfolding candidates register
  candidates-register session session id j k c h = ground (
    arith,
    map_get-map_set id j (add_to c (set_of (map_get id h.by_session))) h.by_session,
    has-add_to k c (set_of (map_get id h.by_session)),
  )
  candidates-register team team id j k c h = ground (
    arith,
    map_get-map_set id j (add_to c (set_of (map_get id h.by_team))) h.by_team,
    has-add_to k c (set_of (map_get id h.by_team)),
  )
  candidates-register session team id j k c h = refl
  candidates-register team session id j k c h = refl

  candidates-shrink :
      (scope other : Scope) (id j k : ℕ) (set : ConnectionSet) (h : Hub M)
      → has k (candidates other j (shrink scope id set h))
        ≡ (if same_scope scope other && id == j then has k set else has k (candidates other j h))
  unfolding candidates shrink
  candidates-shrink session session id j k [] h =
      ground (arith, map_get-map_delete id j h.by_session)
  candidates-shrink team team id j k [] h = ground (arith, map_get-map_delete id j h.by_team)
  candidates-shrink session team id j k [] h = refl
  candidates-shrink team session id j k [] h = refl
  candidates-shrink session session id j k (c ∷ set) h =
      ground (arith, map_get-map_set id j (c ∷ set) h.by_session)
  candidates-shrink team team id j k (c ∷ set) h =
      ground (arith, map_get-map_set id j (c ∷ set) h.by_team)
  candidates-shrink session team id j k (c ∷ set) h = refl
  candidates-shrink team session id j k (c ∷ set) h = refl

  candidates-same :
      (scope other : Scope) (id j : ℕ) (h : Hub M)
      → (same_scope scope other && id == j) ≡ true
      → candidates other j h ≡ candidates scope id h
  candidates-same session session id j h e = ground arith
  candidates-same team team id j h e = ground arith
  candidates-same session team id j h e = ground arith
  candidates-same team session id j h e = ground arith

  candidates-drop_from :
      (scope other : Scope) (id j k c : ℕ) (o : Option ConnectionSet) (h : Hub M)
      → candidates scope id h ≡ set_of o
      → has k (candidates other j (drop_from scope id c o h))
        ≡ (has k (candidates other j h) && not (same_scope scope other && id == j && k == c))
  unfolding drop_from
  candidates-drop_from scope other id j k c none h e =
      ground (arith, candidates-same scope other id j h, ap (has k) e)
  candidates-drop_from scope other id j k c (some set) h e = ground (
    arith,
    candidates-shrink scope other id j k (remove_from c set) h,
    has-remove_from k c set,
    candidates-same scope other id j h,
    ap (has k) e,
  )

  -- A deregistered connection is no candidate under that scope and key any more; no other
  -- membership changes.
  pub candidates-deregister :
      (scope other : Scope) (id j k c : ℕ) (h : Hub M)
      → has k (candidates other j (deregister scope id c h))
        ≡ (has k (candidates other j h) && not (same_scope scope other && id == j && k == c))
  unfolding deregister candidates
  candidates-deregister session session id j k c h =
      candidates-drop_from session session id j k c _ (clear_timers c h) refl
  candidates-deregister session team id j k c h =
      candidates-drop_from session team id j k c _ (clear_timers c h) refl
  candidates-deregister team session id j k c h =
      candidates-drop_from team session id j k c _ (clear_timers c h) refl
  candidates-deregister team team id j k c h =
      candidates-drop_from team team id j k c _ (clear_timers c h) refl
