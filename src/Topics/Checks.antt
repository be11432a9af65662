-- ===== src/Topics/Checks.antt =====
-- Each check of the topic routes (packages/backend/src/routes/topics.ts) on its own: what it leaves
-- alone, and what it vouches for.

use project_dipstick.Base.{
  ℕ, Bool, true, false, ◌&&◌, ◌||◌, not, ◌≡◌, refl, ap, Option, none, some, arith, ◌==◌, any,
}
use project_dipstick.Sessions.Defs.{GlobalRole, role_is}
use project_dipstick.Sessions.Room.{has_completed_session}
use project_dipstick.Sessions.Store.{is_template_team}
use project_dipstick.Topics.Defs.{JsText, World, Endpoint, State, TopicReply, TopicRow}
use project_dipstick.Topics.Defs as Defs
use project_dipstick.Topics.Gates.{
  Gate, stopped, passed, then_gate, Standing, standing_access, facilitator_or_admin,
  facilitator_only, record_denial_row, record_denial, admin_only, authorize, Ticket,
  write_breach_row, decide_budget, enforce_topic_write_rate_limit, check_writable_team,
  check_customization_lock_gate, check_lock,
}

-- The tables that no check writes.
abbrev pub Untouched : State → State → Type 0
Untouched s s' = (s'.topics ≡ s.topics) × (s'.teams ≡ s.teams) × (s'.sessions ≡ s.sessions)

abbrev pub state_of : {T : Type 0} → Gate T → State
state_of (stopped s r) = s
state_of (passed s t) = s

abbrev value_of : {T : Type 0} → Gate T → Option T
value_of (stopped s r) = none
value_of (passed s t) = some t

-- A check that leaves those tables alone and lets pass only what it vouches for.
abbrev pub Vouches : {T : Type 0} → State → (T → Type 0) → Gate T → Type 0
Vouches {T} s P g = Untouched s (state_of g) × ((t : T) → value_of g ≡ some t → P t)

pub then_gate-Vouches :
    {T U : Type 0} (s : State) (P : T → Type 0) (Q : U → Type 0) (g : Gate T)
    (k : State → T → Gate U)
    → Vouches s P g
    → ((s1 : State) (t : T) → Untouched s s1 → P t → Vouches s Q (k s1 t))
    → Vouches s Q (then_gate g k)
then_gate-Vouches s P Q (stopped s1 r) k h next = (h.0, λ t e. absurd (ground (arith, e)))
then_gate-Vouches s P Q (passed s1 t) k h next = next s1 t h.0 (h.1 t refl)

-- A role's right to each change, by the team's current memberships.
abbrev pub may_act : Endpoint → GlobalRole → Bool → Bool
may_act Defs.assign_defaults role is_member = role_is role GlobalRole.application_admin
may_act Defs.annotate role is_member = role_is role GlobalRole.facilitator && not is_member
may_act _ role is_member =
    role_is role GlobalRole.application_admin
    || (role_is role GlobalRole.facilitator && not is_member)

abbrev pub standing_allows : Endpoint → Option Standing → Bool
standing_allows e none = false
standing_allows e (some g) = may_act e g.role g.is_member

abbrev pub is_unlocked : Endpoint → ℕ → State → Bool
is_unlocked Defs.assign_defaults team s = true
is_unlocked _ team s = has_completed_session team s.sessions

-- The whole rule.
abbrev pub is_permitted : Endpoint → ℕ → ℕ → State → Bool
is_permitted e user team s =
    standing_allows e (standing_access user team s)
    && ((any (λ k. k == team) s.teams && not (is_template_team team)) && is_unlocked e team s)

facilitator_or_admin-Vouches :
    (g : Option Standing) (s : State)
    → Vouches s (λ role. standing_allows Defs.add g ≡ true) (facilitator_or_admin g s)
unfolding facilitator_or_admin
facilitator_or_admin-Vouches none s = ((refl, refl, refl), λ t e. absurd (ground (arith, e)))
facilitator_or_admin-Vouches (some g) s =
    ((ground arith, ground arith, ground arith), λ t e. ground (arith, e))

facilitator_only-Vouches :
    (g : Option Standing) (s : State)
    → Vouches s (λ role. standing_allows Defs.annotate g ≡ true) (facilitator_only g s)
unfolding facilitator_only
facilitator_only-Vouches none s = ((refl, refl, refl), λ t e. absurd (ground (arith, e)))
facilitator_only-Vouches (some g) s =
    ((ground arith, ground arith, ground arith), λ t e. ground (arith, e))

admin_only-Vouches :
    (w : World) (user team : ℕ) (role : Option GlobalRole) (s : State)
    → s.users user ≡ role
    → Vouches s
        (λ r. standing_allows Defs.assign_defaults (standing_access user team s) ≡ true)
        (admin_only w user team role s)
unfolding admin_only record_denial record_denial_row standing_access
admin_only-Vouches w user team none s h =
    ((ground arith, ground arith, ground arith), λ t e. absurd (ground (arith, e)))
admin_only-Vouches w user team (some role) s h =
    ((ground arith, ground arith, ground arith), λ t e. ground (arith, e, h))

pub authorize-Vouches :
    (w : World) (e : Endpoint) (user team : ℕ) (s : State)
    → Vouches s
        (λ role. standing_allows e (standing_access user team s) ≡ true)
        (authorize w e user team s)
unfolding authorize
authorize-Vouches w Defs.assign_defaults user team s =
    admin_only-Vouches w user team (s.users user) s refl
authorize-Vouches w Defs.annotate user team s =
    facilitator_only-Vouches (standing_access user team s) s
authorize-Vouches w Defs.add user team s =
    facilitator_or_admin-Vouches (standing_access user team s) s
authorize-Vouches w Defs.archive user team s =
    facilitator_or_admin-Vouches (standing_access user team s) s
authorize-Vouches w Defs.restore user team s =
    facilitator_or_admin-Vouches (standing_access user team s) s
authorize-Vouches w Defs.restore_defaults user team s =
    facilitator_or_admin-Vouches (standing_access user team s) s
authorize-Vouches w Defs.reorder user team s =
    facilitator_or_admin-Vouches (standing_access user team s) s

pub budget-Vouches :
    (w : World) (e : Endpoint) (t : Ticket) (s s1 : State)
    → Untouched s s1
    → Vouches s
        (λ t'. (t'.team ≡ t.team) × (w.redis_answers ≡ true))
        (enforce_topic_write_rate_limit w e t s1)
unfolding enforce_topic_write_rate_limit decide_budget write_breach_row
budget-Vouches w e t s s1 (h, k, l) = (
  (ground (arith, h), ground (arith, k), ground (arith, l)),
  λ t' e'. (ground (arith, e'), ground (arith, e')),
)

pub team-Vouches :
    (w : World) (e : Endpoint) (t : Ticket) (s s1 : State)
    → Untouched s s1
    → Vouches s
        (λ t'.
          (t'.team ≡ t.team)
          × (any (λ k. k == t.team) s.teams ≡ true)
          × (is_template_team t.team ≡ false))
        (check_writable_team w e t s1)
unfolding check_writable_team
team-Vouches w e t s s1 (h, k, l) = (
  (ground (arith, h), ground (arith, k), ground (arith, l)),
  λ t' e'. (
    ground (arith, e'),
    ground (arith, e', k, ap (any (λ (j : ℕ). j == t.team)) k),
    ground (arith, e'),
  ),
)

gate-Vouches :
    (w : World) (e : Endpoint) (t : Ticket) (s s1 : State)
    → Untouched s s1
    → Vouches s
        (λ t'. (t'.team ≡ t.team) × (has_completed_session t.team s.sessions ≡ true))
        (check_customization_lock_gate w e t s1)
unfolding check_customization_lock_gate
gate-Vouches w e t s s1 (h, k, l) = (
  (ground (arith, h), ground (arith, k), ground (arith, l)),
  λ t' e'. (ground (arith, e'), ground (arith, e', ap (has_completed_session t.team) l)),
)

pub lock-Vouches :
    (w : World) (e : Endpoint) (t : Ticket) (s s1 : State)
    → Untouched s s1
    → Vouches s (λ t'. (t'.team ≡ t.team) × (is_unlocked e t.team s ≡ true)) (check_lock w e t s1)
unfolding check_lock
lock-Vouches w Defs.assign_defaults t s s1 same = (same, λ t' e. (ground (arith, e), refl))
lock-Vouches w Defs.add t s s1 same = gate-Vouches w Defs.add t s s1 same
lock-Vouches w Defs.archive t s s1 same = gate-Vouches w Defs.archive t s s1 same
lock-Vouches w Defs.restore t s s1 same = gate-Vouches w Defs.restore t s s1 same
lock-Vouches w Defs.restore_defaults t s s1 same = gate-Vouches w Defs.restore_defaults t s s1 same
lock-Vouches w Defs.reorder t s s1 same = gate-Vouches w Defs.reorder t s s1 same
lock-Vouches w Defs.annotate t s s1 same = gate-Vouches w Defs.annotate t s s1 same
