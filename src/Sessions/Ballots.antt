-- ===== src/Sessions/Ballots.antt =====
-- The lock-in route: which votes it accepts, and what it stores.
use project_dipstick.Base.{
  ℕ, ◌≤◌, Bool, true, ◌≡◌, ◌≢◌, ◌↔◌, ◌⊎◌, refl, inl, inr, some, arith, ◌==◌, ◌&&◌, find_row,
  Bool-cases, Option-cases, if◌then◌else◌,
}
use project_dipstick.Base.Int.{ℤ, pos, negsuc}
use project_dipstick.Sessions.Defs.{
  finger, roman, modified_roman, GlobalRole, Session, SessionTopic, SessionStatus, TopicPhase,
  VoteType, Vote,
}
use project_dipstick.Sessions.LockIn.{
  LockIn, is_legal_vote, topic_by_id, check_lock_in, commit_lock_in, lock_in, cast_vote,
}
use project_dipstick.Sessions.Registration.{is_eligible_voter}
use project_dipstick.Sessions.Store.{Store, find_session, find_membership}
use project_dipstick.Sessions.Voters.{IsVoter, is_eligible_voter_iff}

-- The values of each vote type: a finger vote counts one to four, a roman one is a thumb up or
-- down, and a modified one may be level.
abbrev pub FitsType : VoteType → ℤ → Type 0
FitsType finger v = (n : ℕ) × (v ≡ pos n) × (1 ≤ n) × (n ≤ 4)
FitsType roman v = (v ≡ pos 1) ⊎ (v ≡ negsuc 0)
FitsType modified_roman v = (v ≡ pos 1) ⊎ (v ≡ pos 0) ⊎ (v ≡ negsuc 0)

is_legal_vote_iff : (type : VoteType) (v : ℤ) → (is_legal_vote type v ≡ true) ↔ FitsType type v
unfolding is_legal_vote
is_legal_vote_iff finger (pos n) =
    (λ h. (n, refl, ground arith, ground arith), λ h. let (m, same, lo, hi) = h in ground arith)
is_legal_vote_iff finger (negsuc n) =
    (λ h. absurd (ground arith), λ h. let (m, same, lo, hi) = h in absurd (ground arith))
is_legal_vote_iff roman (pos n) = (λ h. inl (ground arith), λ h. ground arith)
is_legal_vote_iff roman (negsuc n) = (λ h. inr (ground arith), λ h. ground arith)
is_legal_vote_iff modified_roman (pos n) = (
  λ h. elim (Bool-cases (n == 0)) [
    | inl level ↦ inr (inl (ground arith))
    | inr up ↦ inl (ground arith)
  ],
  λ h. ground arith,
)
is_legal_vote_iff modified_roman (negsuc n) = (λ h. inr (inr (ground arith)), λ h. ground arith)

-- The session is active, the topic is one of its topics and open, the caller is an eligible voter
-- and a registered participant, and the value fits the vote type.
pub record CanVote (q : LockIn) (s : Store) : Type 0 where
  pub session : Session
  pub session_found : find_session q.session s.sessions ≡ some session
  pub session_active : session.status ≡ SessionStatus.active
  pub topic : SessionTopic
  pub topic_found :
      find_row (λ t. t.session_id == session.id && t.id == q.session_topic) s.session_topics
      ≡ some topic
  pub topic_open : topic.phase ≡ TopicPhase.voting
  pub locked : SessionTopic
  pub locked_found : topic_by_id q.session_topic s ≡ some locked
  pub locked_open : locked.phase ≡ TopicPhase.voting
  pub role : GlobalRole
  pub role_found : s.users q.user ≡ some role
  pub eligible : IsVoter role (find_membership q.user session.team_id s)
  pub registered : s.participants q.session q.user ≡ true
  pub vote_type : VoteType
  pub type_known : q.vote_type ≡ some vote_type
  pub legal : FitsType vote_type q.value

module _ (now : ℕ) (q : LockIn) (s : Store) where
  accepted-CanVote : (lock_in now q s).1.code ≡ 201 → CanVote q s
  unfolding lock_in check_lock_in commit_lock_in
  accepted-CanVote h = elim (Option-cases (find_session q.session s.sessions)) [
    | inl none_found ↦ absurd (ground arith)
    | inr (r, e) ↦ elim (Option-cases (find_row (in_session r) s.session_topics)) [
      | inl none_found ↦ absurd (ground arith)
      | inr (t, te) ↦ elim (Option-cases (topic_by_id q.session_topic s)) [
        | inl none_found ↦ absurd (ground arith)
        | inr (l, le) ↦ elim (Option-cases (s.users q.user)) [
          | inl none_found ↦ absurd (ground arith)
          | inr (role, ue) ↦ elim (Option-cases q.vote_type) [
            | inl none_found ↦ absurd (ground arith)
            | inr (type, ve) ↦ record {
              session = r;
              session_found = e;
              session_active = ground arith;
              topic = t;
              topic_found = te;
              topic_open = ground arith;
              locked = l;
              locked_found = le;
              locked_open = ground arith;
              role = role;
              role_found = ue;
              eligible =
                  (is_eligible_voter_iff role (find_membership q.user r.team_id s)).0
                    (ground arith);
              registered = ground arith;
              vote_type = type;
              type_known = ve;
              legal = (is_legal_vote_iff type q.value).0 (ground arith);
            }
          ]
        ]
      ]
    ]
  ]
    where
      in_session : Session → SessionTopic → Bool
      in_session r t = t.session_id == r.id && t.id == q.session_topic

  -- The votes after an accepted request: the caller's vote on the topic has the value and the type
  -- sent, and every other vote is as it was.
  pub record IsCast (c : CanVote q s) : Type 0 where
    pub vote : Vote
    pub cast : (lock_in now q s).0.votes q.session_topic q.user ≡ some vote
    pub value : vote.value ≡ q.value
    pub type : vote.vote_type ≡ c.vote_type
    pub others :
        (k u : ℕ)
        → (lock_in now q s).0.votes k u
          ≡ (if k == q.session_topic && u == q.user then some vote else s.votes k u)

  is_eligible :
      (c : CanVote q s)
      → is_eligible_voter c.role (find_membership q.user c.session.team_id s) ≡ true
  is_eligible c =
      (is_eligible_voter_iff c.role (find_membership q.user c.session.team_id s)).1 c.eligible

  is_legal : (c : CanVote q s) → is_legal_vote c.vote_type q.value ≡ true
  is_legal c = (is_legal_vote_iff c.vote_type q.value).1 c.legal

  lock_in-code : CanVote q s → (lock_in now q s).1.code ≡ 201
  unfolding lock_in check_lock_in commit_lock_in
  lock_in-code c = ground (arith, is_eligible c, is_legal c)

  -- A vote is accepted exactly when the session is active, the topic is one of its topics and open
  -- both at the check and under the lock, the caller is an eligible voter and a registered
  -- participant, and the value fits the vote type.
  pub lock_in-code_iff : ((lock_in now q s).1.code ≡ 201) ↔ CanVote q s
  lock_in-code_iff = (accepted-CanVote, lock_in-code)

  -- Such a vote is stored as it was sent, in place of the caller's earlier one on the topic, and no
  -- other vote changes.
  pub lock_in-IsCast : (c : CanVote q s) → IsCast c
  unfolding lock_in check_lock_in commit_lock_in
  lock_in-IsCast c = record {
    vote = cast_vote (s.votes q.session_topic q.user) s.next_id q.session now q.value c.vote_type;
    cast = ground (arith, is_eligible c, is_legal c);
    value = ground (arith, is_eligible c, is_legal c);
    type = ground (arith, is_eligible c, is_legal c);
    others = λ k u. ground (arith, is_eligible c, is_legal c);
  }

  -- A request that is not accepted leaves the whole store as it was.
  pub lock_in-refused : (lock_in now q s).1.code ≢ 201 → (lock_in now q s).0 ≡ s
  unfolding lock_in check_lock_in commit_lock_in
  lock_in-refused h = ground arith
