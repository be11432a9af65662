-- ===== src/Topics/Refusals.antt =====
-- Refused assignments one after another, and what one of them does: the route's record_denial
-- (packages/backend/src/auth/assign-defaults-audit.ts) under the limiter of
-- packages/backend/src/auth/denial-audit-limiter.ts.
use project_dipstick.Base.{
  ℕ, ◌≤◌, suc, true, false, ◌≡◌, ◌||◌, ◌⊎◌, refl, inl, inr, List, [], ◌∷◌, arith, leb, ◌==◌, ==_iff,
  if◌then◌else◌, length, count_rows, select_rows, Bool-cases,
}
use project_dipstick.RateLimit.Denials.{denial_window, admit_denial_audit, classify_denial}
use project_dipstick.RateLimit.Tracking.{IsPast, Holds, IsPast-later, Holds-add_score, trim-scores}
use project_dipstick.RateLimit.Windows.{is_recent, record_and_count, trim}
use project_dipstick.Topics.Defs.{State, TopicAudit, World}
use project_dipstick.Topics.Gates.{record_denial, record_denial_row}

-- A refused assignment: what the services answer, who asked, and the team of the path.
pub record Refusal : Type 0 where
  pub world : World
  pub user : ℕ
  pub team : ℕ

-- Refusals in the order of their requests.
unfoldable pub record_denials : List Refusal → State → State
unfolding record_denial
record_denials [] s = s
record_denials (d ∷ ds) s = record_denials ds (record_denial d.world d.user d.team s)

-- The clock does not go back.
abbrev pub IsOrderedBy : ℕ → List Refusal → Type 0
IsOrderedBy last [] = Unit
IsOrderedBy last (d ∷ ds) = (last ≤ d.world.now) × IsOrderedBy d.world.now ds

-- The audit rows that name the user as their actor.
abbrev pub rows_of : ℕ → State → ℕ
rows_of user s = count_rows (λ (a : TopicAudit). a.actor_user_id == user) s.audit_log

-- The user's key against the times counted in it.
pub record Tracks (user last : ℕ) (s : State) (counted : List ℕ) : Type 0 where
  pub holds : Holds denial_window last (s.denial_counts user) counted
  pub past : IsPast last counted

-- What one refusal does to a user's rows and counted times.
abbrev pub IsStep : ℕ → ℕ → State → State → List ℕ → List ℕ → Type 0
IsStep user now s s' counted counted' =
    ((rows_of user s' ≡ rows_of user s) × ((counted' ≡ counted) ⊎ (counted' ≡ now ∷ counted)))
    ⊎ ((rows_of user s' ≡ suc (rows_of user s))
        × (counted' ≡ now ∷ counted)
        × (suc (length (select_rows (is_recent denial_window now) counted)) ≤ 10))

module _ (user last : ℕ) (d : Refusal) (s : State) (counted : List ℕ) (order : last ≤ d.world.now)
    (tracks : Tracks user last s counted) where
  Tracks-counted :
      (s' : State)
      → s'.denial_counts user
        ≡ (record_and_count denial_window d.world.now (s.denial_counts user)).0
      → Tracks user d.world.now s' (d.world.now ∷ counted)
  unfolding record_and_count
  Tracks-counted s' e = record {
    holds = rw (e) (
        Holds-add_score denial_window last d.world.now (s.denial_counts user) counted tracks.holds
          order tracks.past);
    past = (omega arith, IsPast-later last d.world.now counted order tracks.past);
  }

  Tracks-uncounted :
      (s' : State)
      → s'.denial_counts user ≡ s.denial_counts user
      → Tracks user d.world.now s' counted
  Tracks-uncounted s' e = record {
    holds = rw (e) (λ t later. tracks.holds t (omega arith));
    past = IsPast-later last d.world.now counted order tracks.past;
  }

  other_actor :
      (d.user == user) ≡ false
      → ((record_denial d.world d.user d.team s).denial_counts user ≡ s.denial_counts user)
        × (rows_of user (record_denial d.world d.user d.team s) ≡ rows_of user s)
  unfolding record_denial record_denial_row admit_denial_audit count_rows
  other_actor other = (ground arith, ground arith)

  unanswered :
      d.world.redis_answers ≡ false
      → rows_of user (record_denial d.world d.user d.team s) ≡ rows_of user s
  unfolding record_denial record_denial_row admit_denial_audit count_rows
  unanswered silent = ground arith

  key_after :
      d.user ≡ user
      → (record_denial d.world d.user d.team s).denial_counts user ≡ (
          if d.world.redis_answers || d.world.redis_runs_late
          then (record_and_count denial_window d.world.now (s.denial_counts user)).0
          else s.denial_counts user)
  unfolding record_denial record_denial_row admit_denial_audit
  key_after same = ground arith

  over_the_limit :
      d.user ≡ user
      → leb (suc (length (trim denial_window d.world.now (s.denial_counts user)).scores)) 10 ≡ false
      → rows_of user (record_denial d.world d.user d.team s) ≡ rows_of user s
  unfolding record_denial record_denial_row admit_denial_audit count_rows record_and_count
      classify_denial
  over_the_limit same over = ground arith

  within_limit :
      d.user ≡ user
      → d.world.redis_answers ≡ true
      → leb (suc (length (trim denial_window d.world.now (s.denial_counts user)).scores)) 10 ≡ true
      → rows_of user (record_denial d.world d.user d.team s)
        ≡ (if d.world.audit_answers then suc (rows_of user s) else rows_of user s)
  unfolding record_denial record_denial_row admit_denial_audit count_rows record_and_count
      classify_denial
  within_limit same answers room = ground arith

  -- After an answer of Redis.
  answered-IsStep :
      d.user ≡ user
      → d.world.redis_answers ≡ true
      → IsStep user d.world.now s
          (record_denial d.world d.user d.team s)
          counted
          (d.world.now ∷ counted)
  answered-IsStep same answers =
      let shown =
        trim-scores denial_window last d.world.now (s.denial_counts user) counted tracks.holds
          order in
      elim (Bool-cases
        (leb (suc (length (trim denial_window d.world.now (s.denial_counts user)).scores)) 10)) [
          | inr over ↦ inl (over_the_limit same over, inr refl)
          | inl room ↦ elim (Bool-cases d.world.audit_answers) [
            | inl stored ↦
                inr (rw (within_limit same answers room, stored) refl, refl, ground (arith, shown))
            | inr lost ↦ inl (rw (within_limit same answers room, lost) refl, inr refl)
          ]
        ]

  pub record_denial-IsStep :
      (counted' : List ℕ) × Tracks user d.world.now (record_denial d.world d.user d.team s) counted'
      × IsStep user d.world.now s (record_denial d.world d.user d.team s) counted counted'
  record_denial-IsStep =
      let s' = record_denial d.world d.user d.team s in
      elim (Bool-cases (d.user == user)) [
        | inr other ↦
            let (key, rows) = other_actor other in
            (counted, Tracks-uncounted s' key, inl (rows, inl refl))
        | inl hit ↦
            let same = (==_iff d.user user).0 hit in
            elim (Bool-cases d.world.redis_answers) [
              | inl answers ↦ (
                d.world.now ∷ counted,
                Tracks-counted s' (rw (key_after same, answers) refl),
                answered-IsStep same answers,
              )
              | inr silent ↦ elim (Bool-cases d.world.redis_runs_late) [
                | inl late ↦ (
                  d.world.now ∷ counted,
                  Tracks-counted s' (rw (key_after same, silent, late) refl),
                  inl (unanswered silent, inr refl),
                )
                | inr lost ↦ (
                  counted,
                  Tracks-uncounted s' (rw (key_after same, silent, lost) refl),
                  inl (unanswered silent, inl refl),
                )
              ]
            ]
      ]
