-- ===== src/Topics/DenialRows.antt =====
-- How many audit rows the refused assignments of one actor can cause: the route's record_denial
-- (packages/backend/src/auth/assign-defaults-audit.ts) under the limiter of
-- packages/backend/src/auth/denial-audit-limiter.ts.
use project_dipstick.Base.{ℕ, List, leb, count_rows}

-- The times counted from `start` on.
abbrev since : ℕ → List ℕ → ℕ
since start counted = count_rows (leb start) counted
