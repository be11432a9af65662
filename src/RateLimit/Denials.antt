-- ===== src/RateLimit/Denials.antt =====
-- The bound on audit rows for denials (packages/backend/src/auth/denial-audit-limiter.ts).
use project_dipstick.Base.{ℕ, ◌+◌, Bool, leb, ◌==◌, if◌then◌else◌}
use project_dipstick.RateLimit.Windows.{ZSet, record_and_count}

-- DENIAL_AUDIT_LIMIT.
abbrev pub denial_limit : ℕ
denial_limit = 10

abbrev pub denial_window : ℕ
denial_window = 60000

pub data DenialAdmission : Type 0 where
  allowed : DenialAdmission
  -- The count, and whether this is the first denial over the limit.
  over_limit : ℕ → Bool → DenialAdmission
  limiter_error : DenialAdmission

unfoldable pub classify_denial : ℕ → DenialAdmission
classify_denial count =
    if leb count denial_limit then allowed else over_limit count (count == denial_limit + 1)

-- The call of Redis. Without its answer, after an error or the time limit of withTimeout, it may
-- still run: `runs_late` says whether it does.
unfoldable pub admit_denial_audit : Bool → Bool → ℕ → ZSet → ZSet × DenialAdmission
unfolding record_and_count classify_denial
admit_denial_audit answers runs_late now z =
    let (z', c) = record_and_count denial_window now z in
    if answers then (z', classify_denial c.count) else (if runs_late then z' else z, limiter_error)
