-- ===== src/Topics.antt =====
-- The topic routes of a team (packages/backend/src/routes/topics.ts): what they share, one module
-- for each route, and the proofs.
pub mod Defs
pub mod Gates
pub mod Names
pub mod Changes
pub mod BulkRestore
pub mod Reorder
pub mod Bodies
pub mod Handle
pub mod Free
pub mod Tidy
pub mod Joining
pub mod Copying
pub mod Quiet
pub mod Phases
pub mod Reordering
pub mod Targets
pub mod Sequence
pub mod Walk
pub mod Parity
pub mod Invariant
pub mod Ids
pub mod Sorted
pub mod Placing
pub mod Accepting
pub mod ValidOrder
pub mod NewOrder
pub mod LastArchived
pub mod LastActive
pub mod ThereAndBack
pub mod Checks
pub mod Authority
pub mod Assigned
pub mod Refusals
pub mod DenialRows
pub mod Examples
