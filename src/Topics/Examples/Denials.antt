-- ===== src/Topics/Examples/Denials.antt =====
-- Refused assignments (packages/backend/src/auth/assign-defaults-audit.ts): runs, and the bound on
-- their rows applied.
use project_dipstick.Base.{
  ℕ, ◌≡◌, zero, suc, true, false, refl, List, [], ◌∷◌, count_rows, select_rows,
}
use project_dipstick.Topics.Defs.{World}
use project_dipstick.Topics.Refusals.{Refusal, record_denials, rows_of}
use project_dipstick.Topics.Examples.{two_teams, calm}

-- The facilitator asks for the assignment, which only admins may.
abbrev refusal : ℕ → World → Refusal
refusal time w = record { world = record w { now = time }; user = 1; team = 8 }

-- Redis fails, and counts the refusal nevertheless.
abbrev slow : World
slow = record { now = 0; redis_answers = false; redis_runs_late = true; audit_answers = true }

abbrev many : ℕ → List Refusal
many zero = []
many (suc n) = refusal 100 calm ∷ many n

limit_test : rows_of 1 (record_denials (many 12) two_teams) ≡ 10
unfolding record_denials count_rows select_rows
limit_test = refl

-- The refusal that was counted late takes one of the ten.
late_test : rows_of 1 (record_denials (refusal 99 slow ∷ many 12) two_teams) ≡ 9
unfolding record_denials count_rows select_rows
late_test = refl
