-- ===== src/Topics/Authority.antt =====
-- Who may change topics, and when: the checks of packages/backend/src/routes/topics.ts, of
-- packages/backend/src/auth/standing-facilitator-access-helper.ts and of
-- packages/backend/src/auth/topic-lock-helper.ts, taken together.
use mathlib.Core.Option
use mathlib.Core.Path.{subst}
use project_dipstick.Base.{
  ℕ, true, false, ◌≡◌, refl, ◌∙◌, inl, inr, ◌⊎◌, Option, some, arith, ◌==◌, any,
}
use project_dipstick.Sessions.Defs.{GlobalRole}
use project_dipstick.Sessions.Store.{is_template_team}
use project_dipstick.Topics.Defs.{JsText, World, Endpoint, State}
use project_dipstick.Topics.Gates.{
  Gate, stopped, passed, standing_access, authorize, Ticket, enforce_topic_write_rate_limit,
  check_writable_team, check_request,
}
use project_dipstick.Topics.Handle.{
  TopicRequest, endpoint_of, check_active_row, check_topic_active, check_archived_row,
  check_topic_archived, add_change, reorder_change, annotate_change, prepare, Accepted,
  accept_request, run_gate, commit, handle,
}
use project_dipstick.Topics.Checks.{
  Untouched, state_of, Vouches, then_gate-Vouches, standing_allows, is_permitted, authorize-Vouches,
  budget-Vouches, team-Vouches, lock-Vouches,
}

-- A ticket of that team, for a request that the rule permits.
abbrev IsCleared : World → Endpoint → ℕ → ℕ → State → Ticket → Type 0
IsCleared w e user team s t =
    (t.team ≡ team) × (w.redis_answers ≡ true) × (is_permitted e user team s ≡ true)

check_request-Vouches :
    (w : World) (e : Endpoint) (user team : ℕ) (s : State)
    → Vouches s (IsCleared w e user team s) (check_request w e user (some team) s)
unfolding check_request
check_request-Vouches w e user team s =
    let Allowed : GlobalRole → Type 0 =
      λ role. standing_allows e (standing_access user team s) ≡ true in
    then_gate-Vouches s Allowed (IsCleared w e user team s) (authorize w e user team s) _
      (authorize-Vouches w e user team s)
      (λ s1 role same1 allowed.
        let t0 : Ticket = record { user = user; role = role; team = team } in
        then_gate-Vouches s (λ t. (t.team ≡ team) × (w.redis_answers ≡ true))
          (IsCleared w e user team s) (enforce_topic_write_rate_limit w e t0 s1) _
          (budget-Vouches w e t0 s s1 same1)
          (λ s2 t same2 paid.
            then_gate-Vouches s
              (λ t'.
                (t'.team ≡ t.team)
                × (any (λ k. k == t.team) s.teams ≡ true)
                × (is_template_team t.team ≡ false))
              (IsCleared w e user team s) (check_writable_team w e t s2) _
              (team-Vouches w e t s s2 same2)
              (λ s3 t' same3 known.
                let (same4, unlocked) = lock-Vouches w e t' s s3 same3 in
                (
                  same4,
                  λ t'' last.
                      let open_lock = unlocked t'' last in
                      let here : t'.team ≡ team = known.0 ∙ paid.0 in
                      (
                        open_lock.0 ∙ here,
                        paid.1,
                        ground (
                          arith,
                          allowed,
                          rw (paid.0) at known.1,
                          rw (paid.0) at known.2,
                          rw (here) at open_lock.1,
                        ),
                      ),
                ))))

prepare-Vouches :
    (js : JsText) (q : TopicRequest) (t : Ticket) (s s1 : State)
    → Untouched s s1
    → Untouched s (state_of (prepare js q t s1))
unfolding prepare add_change reorder_change annotate_change check_topic_active check_active_row
    check_topic_archived check_archived_row
prepare-Vouches js q t s s1 (h, k, l) = (ground (arith, h), ground (arith, k), ground (arith, l))

run_gate-topics :
    (js : JsText) (w : World) (team : Option ℕ) (s : State) (P : Ticket → Type 0)
    (g : Gate Accepted)
    → Vouches s (λ a. P a.ticket) g
    → ((run_gate js w g).0.topics ≡ s.topics)
      ⊎ ((a : Accepted) × (s1 : State) × P a.ticket
          × (s1.topics ≡ s.topics)
          × ((run_gate js w g).0 ≡ (commit js w a.ticket a.change s1).0))
run_gate-topics js w team s P (stopped s1 r) h = inl h.0.0
run_gate-topics js w team s P (passed s1 a) h = inr (a, s1, h.1 a refl, h.0.0, refl)

accept_request-Vouches :
    (js : JsText) (w : World) (user team : ℕ) (q : TopicRequest) (s : State)
    → Vouches s
        (λ a. IsCleared w (endpoint_of q) user team s a.ticket)
        (accept_request js w user (some team) q s)
unfolding accept_request
accept_request-Vouches js w user team q s =
    then_gate-Vouches s (IsCleared w (endpoint_of q) user team s)
      (λ a. IsCleared w (endpoint_of q) user team s a.ticket)
      (check_request w (endpoint_of q) user (some team) s) _
      (check_request-Vouches w (endpoint_of q) user team s)
      (λ s1 t same cleared.
        then_gate-Vouches s (λ c. Unit {0}) (λ a. IsCleared w (endpoint_of q) user team s a.ticket)
          (prepare js q t s1) _ (prepare-Vouches js q t s s1 same, λ c e. tt)
          (λ s2 c same2 _. (
            same2,
            λ a e.
                subst (λ a. IsCleared w (endpoint_of q) user team s a.ticket)
                  ((Option.some_inj).0 e) cleared,
          )))

-- A request at a topic route that names a team leaves the topics as they are, or runs one
-- transaction on the team of its path, on those topics. In the second case Redis has answered for
-- the write budget, and the rule as a whole permits the request: the actor's role and membership
-- allow the change, the team exists and is not the template team, and, but for the assignment of
-- the defaults, it has a completed session.
pub handle-is_permitted :
    (js : JsText) (w : World) (user team : ℕ) (q : TopicRequest) (s : State)
    → ((handle js w user (some team) q s).0.topics ≡ s.topics)
      ⊎ ((a : Accepted) × (s1 : State) × ((a.ticket.team ≡ team)
            × (w.redis_answers ≡ true)
            × (is_permitted (endpoint_of q) user team s ≡ true))
          × (s1.topics ≡ s.topics)
          × ((handle js w user (some team) q s).0 ≡ (commit js w a.ticket a.change s1).0))
unfolding handle
handle-is_permitted js w user team q s =
    run_gate-topics js w (some team) s (IsCleared w (endpoint_of q) user team s)
      (accept_request js w user (some team) q s) (accept_request-Vouches js w user team q s)
