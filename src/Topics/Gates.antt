-- ===== src/Topics/Gates.antt =====
-- What every topic route checks before it looks at its own request, in the routes' order: the team
-- id, the actor (packages/backend/src/auth/standing-facilitator-access-helper.ts and the checks of
-- packages/backend/src/routes/topics.ts), the write budget
-- (packages/backend/src/routes/topic-write-rate-limit.ts), the team, and the lock.
use project_dipstick.Base.{
  ℕ, Bool, true, false, ◌&&◌, not, Option, none, some, [], ◌∷◌, ◌==◌, if◌then◌else◌, any,
}
use project_dipstick.Sessions.Defs.{GlobalRole, role_is}
use project_dipstick.Sessions.Room.{has_completed_session}
use project_dipstick.Sessions.Store.{template_team, is_template_team}
use project_dipstick.RateLimit.TopicWrites.{
  TopicWriteBreach, Decision, admitted, denied, check_topic_write_budget,
}
use project_dipstick.RateLimit.Denials.{
  DenialAdmission, allowed, over_limit, limiter_error, admit_denial_audit,
}
use project_dipstick.Topics.Defs.{
  State, World, Endpoint, TopicReply, TopicBody, TopicOperation, reply, audit,
}
use project_dipstick.Topics.Defs as Defs

-- A check sends its reply or lets the request pass; either way it may have written.
pub data Gate (T : Type 0) : Type 0 where
  stopped : State → TopicReply → Gate T
  passed : State → T → Gate T

abbrev pub then_gate : {T U : Type 0} → Gate T → (State → T → Gate U) → Gate U
then_gate (stopped s r) k = stopped s r
then_gate (passed s t) k = k s t

pub record Standing : Type 0 where
  pub role : GlobalRole
  pub is_member : Bool

abbrev not_removed : Option ℕ → Bool
not_removed none = true
not_removed (some _) = false

-- evaluateStandingFacilitatorAccess.
unfoldable pub standing_access : ℕ → ℕ → State → Option Standing
standing_access user team s = elim (s.users user) [
  | none ↦ none
  | some role ↦ some (record {
    role = role;
    is_member =
        any (λ m. m.user_id == user && m.team_id == team && not_removed m.removed_at) s.memberships;
  })
]

abbrev forbidden : TopicBody → State → Gate GlobalRole
forbidden body s = stopped s (reply 403 body)

unfoldable pub facilitator_or_admin : Option Standing → State → Gate GlobalRole
facilitator_or_admin none s = forbidden Defs.not_a_facilitator s
facilitator_or_admin (some g) s =
    if role_is g.role GlobalRole.application_admin
    then passed s g.role
    else if not (role_is g.role GlobalRole.facilitator)
    then forbidden Defs.not_a_facilitator s
    else if g.is_member
    then forbidden Defs.facilitator_is_team_member s
    else passed s g.role

-- The annotation's route admits no admin.
unfoldable pub facilitator_only : Option Standing → State → Gate GlobalRole
facilitator_only none s = forbidden Defs.not_a_facilitator s
facilitator_only (some g) s =
    if not (role_is g.role GlobalRole.facilitator)
    then forbidden Defs.not_a_facilitator s
    else if g.is_member
    then forbidden Defs.facilitator_is_team_member s
    else passed s g.role

-- The row of a refused assign-defaults, when the limiter admits it and the INSERT succeeds.
unfoldable pub record_denial_row : World → ℕ → ℕ → DenialAdmission → State → State
record_denial_row w user team allowed s =
    if w.audit_answers then audit user (s.users user) Defs.defaults_assign_denied team s else s
record_denial_row w user team (over_limit n f) s = s
record_denial_row w user team limiter_error s = s

unfoldable pub record_denial : World → ℕ → ℕ → State → State
unfolding record_denial_row admit_denial_audit
record_denial w user team s =
    let (z, admission) =
      admit_denial_audit w.redis_answers w.redis_runs_late w.now (s.denial_counts user) in
    record_denial_row w user team admission
      (record s { denial_counts = λ u. if u == user then z else s.denial_counts u })

unfoldable pub admin_only : World → ℕ → ℕ → Option GlobalRole → State → Gate GlobalRole
unfolding record_denial
admin_only w user team none s = forbidden Defs.not_an_admin (record_denial w user team s)
admin_only w user team (some role) s =
    if role_is role GlobalRole.application_admin
    then passed s GlobalRole.application_admin
    else forbidden Defs.not_an_admin (record_denial w user team s)

-- The routes' own checks differ in their messages alone.
abbrev pub check_add_custom_topic_authorization : ℕ → ℕ → State → Gate GlobalRole
check_add_custom_topic_authorization user team s =
    facilitator_or_admin (standing_access user team s) s

abbrev pub check_archive_topic_authorization : ℕ → ℕ → State → Gate GlobalRole
check_archive_topic_authorization user team s = facilitator_or_admin (standing_access user team s) s

abbrev pub check_restore_topic_authorization : ℕ → ℕ → State → Gate GlobalRole
check_restore_topic_authorization user team s = facilitator_or_admin (standing_access user team s) s

abbrev pub check_bulk_restore_authorization : ℕ → ℕ → State → Gate GlobalRole
check_bulk_restore_authorization user team s = facilitator_or_admin (standing_access user team s) s

abbrev pub check_reorder_topics_authorization : ℕ → ℕ → State → Gate GlobalRole
check_reorder_topics_authorization user team s =
    facilitator_or_admin (standing_access user team s) s

abbrev pub check_standing_facilitator_authorization : ℕ → ℕ → State → Gate GlobalRole
check_standing_facilitator_authorization user team s =
    facilitator_only (standing_access user team s) s

abbrev pub check_assign_defaults_authorization : World → ℕ → ℕ → State → Gate GlobalRole
check_assign_defaults_authorization w user team s = admin_only w user team (s.users user) s

unfoldable pub authorize : World → Endpoint → ℕ → ℕ → State → Gate GlobalRole
unfolding standing_access facilitator_or_admin facilitator_only admin_only
authorize w Defs.assign_defaults user team s = check_assign_defaults_authorization w user team s
authorize w Defs.annotate user team s = check_standing_facilitator_authorization user team s
authorize w Defs.add user team s = check_add_custom_topic_authorization user team s
authorize w Defs.archive user team s = check_archive_topic_authorization user team s
authorize w Defs.restore user team s = check_restore_topic_authorization user team s
authorize w Defs.restore_defaults user team s = check_bulk_restore_authorization user team s
authorize w Defs.reorder user team s = check_reorder_topics_authorization user team s

pub record Ticket : Type 0 where
  pub user : ℕ
  pub role : GlobalRole
  pub team : ℕ

-- A row for a breach that starts an episode, when its INSERT succeeds.
unfoldable pub write_breach_row : World → Endpoint → Ticket → TopicWriteBreach → State → State
write_breach_row w e t b s = elim b.new_episode_windows [
  | [] ↦ s
  | w0 ∷ ws ↦
      if w.audit_answers
      then audit t.user (some t.role)
          (Defs.write_rate_limited e b.limit b.new_episode_windows b.observed_count) t.team s
      else s
]

unfoldable pub decide_budget : World → Endpoint → Ticket → Decision → State → Gate Ticket
unfolding write_breach_row
decide_budget w e t (admitted r) s = passed s t
decide_budget w e t (denied r b) s =
    stopped (write_breach_row w e t b s) (reply 429 (Defs.rate_limited b.limit b.retry_after))

-- enforceTopicWriteRateLimit. Without an answer of Redis the request is refused, and it may still
-- be counted.
unfoldable pub enforce_topic_write_rate_limit : World → Endpoint → Ticket → State → Gate Ticket
unfolding check_topic_write_budget decide_budget
enforce_topic_write_rate_limit w e t s =
    let (k, d) = check_topic_write_budget w.now (s.budgets t.user) in
    let counted : State = record s { budgets = λ u. if u == t.user then k else s.budgets u } in
    if w.redis_answers
    then decide_budget w e t d counted
    else stopped (if w.redis_runs_late then counted else s) (reply 503 Defs.rate_limit_unavailable)

-- checkWritableTeam. The row of the template's denial may fail to be written.
unfoldable pub check_writable_team : World → Endpoint → Ticket → State → Gate Ticket
check_writable_team w e t s =
    if not (any (λ team. team == t.team) s.teams)
    then stopped s (reply 404 Defs.team_not_found)
    else if is_template_team t.team
    then stopped
        (if w.audit_answers
          then audit t.user (some t.role) (Defs.write_denied_template e) template_team s
          else s)
        (reply 404 Defs.team_not_found)
    else passed s t

-- checkCustomizationLockGate.
unfoldable pub check_customization_lock_gate : World → Endpoint → Ticket → State → Gate Ticket
unfolding has_completed_session
check_customization_lock_gate w e t s =
    if not (has_completed_session t.team s.sessions)
    then if w.audit_answers
      then stopped (audit t.user (some t.role) (Defs.write_denied_locked e) t.team s)
          (reply 409 Defs.topic_customization_locked)
      else stopped s (reply 500 Defs.internal_error)
    else passed s t

-- The lock does not hold back the assignment of the defaults.
unfoldable pub check_lock : World → Endpoint → Ticket → State → Gate Ticket
unfolding check_customization_lock_gate
check_lock w Defs.assign_defaults t s = passed s t
check_lock w Defs.add t s = check_customization_lock_gate w Defs.add t s
check_lock w Defs.archive t s = check_customization_lock_gate w Defs.archive t s
check_lock w Defs.restore t s = check_customization_lock_gate w Defs.restore t s
check_lock w Defs.restore_defaults t s = check_customization_lock_gate w Defs.restore_defaults t s
check_lock w Defs.reorder t s = check_customization_lock_gate w Defs.reorder t s
check_lock w Defs.annotate t s = check_customization_lock_gate w Defs.annotate t s

-- `team` is `none` where the path's text is no canonical UUID.
unfoldable pub check_request : World → Endpoint → ℕ → Option ℕ → State → Gate Ticket
unfolding authorize enforce_topic_write_rate_limit check_writable_team check_lock
check_request w e user none s = stopped s (reply 404 Defs.team_not_found)
check_request w e user (some team) s = then_gate (authorize w e user team s) (λ s1 role.
    then_gate
      (enforce_topic_write_rate_limit w e (record { user = user; role = role; team = team }) s1)
      (λ s2 t. then_gate (check_writable_team w e t s2) (λ s3 t. check_lock w e t s3)))
