-- ===== src/Sessions/Voters.antt =====
-- Who can become a participant of a session.
use project_dipstick.Base.{
  ℕ, true, ◌≡◌, ◌≢◌, refl, ◌↔◌, ◌⊎◌, inl, inr, Option, none, some, arith, Bool-cases, Option-cases,
  if◌then◌else◌,
}
use project_dipstick.Sessions.Defs.{GlobalRole, MembershipRole, Membership, Session, SessionStatus}
use project_dipstick.Sessions.Lookup.{find_session-id}
use project_dipstick.Sessions.Registration.{is_eligible_voter, register_participant}
use project_dipstick.Sessions.Replies
use project_dipstick.Sessions.Replies.{reply}
use project_dipstick.Sessions.Store.{Store, find_session, find_membership}

-- A present member of the team, who is no manager there or anywhere and no application admin.
pub record IsVoter (role : GlobalRole) (o : Option Membership) : Type 0 where
  pub membership : Membership
  pub is_member : o ≡ some membership
  pub present : membership.removed_at ≡ none
  pub not_team_manager : membership.role ≡ MembershipRole.participant
  pub not_manager : role ≢ GlobalRole.engineering_manager
  pub not_admin : role ≢ GlobalRole.application_admin

pub is_eligible_voter_iff :
    (role : GlobalRole) (o : Option Membership) → (is_eligible_voter role o ≡ true) ↔ IsVoter role o
unfolding is_eligible_voter
is_eligible_voter_iff role none = (λ h. cc, λ v. ground (arith, v.is_member))
is_eligible_voter_iff role (some m) = (
  λ h. record {
    membership = m;
    is_member = refl;
    present = ground arith;
    not_team_manager = ground arith;
    not_manager = ground arith;
    not_admin = ground arith;
  },
  λ v. ground (arith, v.is_member, v.present, v.not_team_manager, v.not_manager, v.not_admin),
)

-- What a registration that goes through has found.
pub record IsRegistrable (user session : ℕ) (s : Store) : Type 0 where
  pub row : Session
  pub row_found : find_session session s.sessions ≡ some row
  pub is_open :
      (row.status ≡ SessionStatus.lobby)
      ⊎ (row.status ≡ SessionStatus.pre_session)
      ⊎ (row.status ≡ SessionStatus.active)
  pub role : GlobalRole
  pub role_found : s.users user ≡ some role
  pub voter : IsVoter role (find_membership user row.team_id s)

module _ (user session : ℕ) (s : Store) where
  -- A participant after the request was one before, or is the caller, found eligible, in a session
  -- that is open for registration.
  pub register-participants :
      (k u : ℕ)
      → (register_participant user session s).0.participants k u ≡ true
      → (s.participants k u ≡ true) ⊎ ((k ≡ session) × (u ≡ user) × IsRegistrable user session s)
  unfolding register_participant
  register-participants k u h = elim (Bool-cases (s.participants k u)) [
    | inl before ↦ inl before
    | inr new ↦ elim (Option-cases (find_session session s.sessions)) [
      | inl missing ↦ absurd (ground arith)
      | inr (r, e) ↦ elim (Option-cases (s.users user)) [
        | inl missing ↦ absurd (ground arith)
        | inr (role, ue) ↦ inr (
          ground (arith, find_session-id session s.sessions r e),
          ground arith,
          record {
            row = r;
            row_found = e;
            is_open = ground arith;
            role = role;
            role_found = ue;
            voter =
                (is_eligible_voter_iff role (find_membership user r.team_id s)).0 (ground arith);
          },
        )
      ]
    ]
  ]

  -- Whoever qualifies is a participant afterwards, and the reply tells whether this is new.
  pub register-accepts :
      IsRegistrable user session s
      → ((register_participant user session s).0.participants session user ≡ true)
        × ((register_participant user session s).1
            ≡ reply
                (if s.participants session user then 200 else 201)
                (Replies.participant_result session (s.participants session user)))
  unfolding register_participant
  register-accepts q = ground (
    arith,
    find_session-id session s.sessions q.row q.row_found,
    (is_eligible_voter_iff q.role (find_membership user q.row.team_id s)).1 q.voter,
  )

  -- A second registration finds the first one, and changes nothing.
  pub register_twice :
      IsRegistrable user session s
      → let t = (register_participant user session s).0 in
        register_participant user session t
        ≡ (t, reply 200 (Replies.participant_result session true))
  unfolding register_participant
  register_twice q = ground (
    arith,
    find_session-id session s.sessions q.row q.row_found,
    (is_eligible_voter_iff q.role (find_membership user q.row.team_id s)).1 q.voter,
  )
