-- ===== src/Sessions/Listeners.antt =====
-- Who may receive the live events of a session: subscriber_access against its rules.
use project_dipstick.Base.{
  ℕ, true, false, ◌≡◌, ◌↔◌, ◌⊎◌, inl, inr, some, arith, ◌==◌, ◌&&◌, Option-cases, Bool-cases,
}
use project_dipstick.Sessions.Access.{
  Grant, facilitator_grant, participant_grant, is_live_status, subscriber_access,
}
use project_dipstick.Sessions.Defs.{GlobalRole, Session, SessionStatus}
use project_dipstick.Sessions.Registration.{is_eligible_voter}
use project_dipstick.Sessions.Store.{Store, find_session, find_membership}
use project_dipstick.Sessions.Voters.{IsVoter, is_eligible_voter_iff}

abbrev pub IsLive : SessionStatus → Type 0
IsLive st =
    (st ≡ SessionStatus.lobby)
    ⊎ (st ≡ SessionStatus.pre_session)
    ⊎ (st ≡ SessionStatus.active)
    ⊎ (st ≡ SessionStatus.wrap_up)

-- The two ways to a grant, on the session's row and the caller's role.
pub data MayListen (user session : ℕ) (s : Store) (g : Grant) : Type 0 where
  as_facilitator :
      (r : Session) (role : GlobalRole)
      → find_session session s.sessions ≡ some r
      → s.users user ≡ some role
      → r.facilitator_id ≡ user
      → IsLive r.status
      → g ≡ facilitator_grant r.id r.team_id r.status role
      → MayListen user session s g
  as_participant :
      (r : Session) (role : GlobalRole)
      → find_session session s.sessions ≡ some r
      → s.users user ≡ some role
      → (r.facilitator_id == user && is_live_status r.status) ≡ false
      → s.participants r.id user ≡ true
      → IsVoter role (find_membership user r.team_id s)
      → g ≡ participant_grant r.id r.team_id role
      → MayListen user session s g

module _ (user session : ℕ) (s : Store) (g : Grant) where
  access_sound : subscriber_access user session s ≡ some g → MayListen user session s g
  unfolding subscriber_access is_eligible_voter
  access_sound h = elim (Option-cases (find_session session s.sessions)) [
    | inl missing ↦ absurd (ground arith)
    | inr (r, e) ↦ elim (Option-cases (s.users user)) [
      | inl missing ↦ absurd (ground arith)
      | inr (role, ue) ↦ elim (Bool-cases (r.facilitator_id == user && is_live_status r.status)) [
        | inl runs ↦ as_facilitator r role e ue (ground arith) (ground arith) (ground arith)
        | inr listens ↦
            as_participant r role e ue listens (ground arith)
              ((is_eligible_voter_iff role (find_membership user r.team_id s)).0 (ground arith))
              (ground arith)
      ]
    ]
  ]

  access_complete : MayListen user session s g → subscriber_access user session s ≡ some g
  unfolding subscriber_access is_eligible_voter
  access_complete (as_facilitator r role e ue own live same) = ground arith
  access_complete (as_participant r role e ue other joined voter same) =
      ground (arith, (is_eligible_voter_iff role (find_membership user r.team_id s)).1 voter)

  -- A grant is given exactly to the facilitator of a live session, and otherwise to a registered
  -- participant who is at this moment an eligible voter by the rule of registration.
  pub subscriber_access_iff :
      (subscriber_access user session s ≡ some g) ↔ MayListen user session s g
  subscriber_access_iff = (access_sound, access_complete)
