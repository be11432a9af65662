-- ===== src/Sessions.antt =====
-- The session lifecycle routes of packages/backend/src/routes.
pub mod Defs
pub mod Store
pub mod Replies
pub mod Registration
pub mod LockIn
pub mod Snapshot
pub mod Room
pub mod Start
pub mod Reveal
pub mod Advance
pub mod Steps
pub mod Frozen
pub mod Lookup
pub mod Lifecycle
pub mod Edges
pub mod TopicEdges
pub mod Progress
pub mod Races
pub mod Ballots
pub mod Voters
pub mod Access
pub mod Reveals
pub mod Listeners
pub mod Numbering
mod Examples
