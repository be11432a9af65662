-- ===== src/Realtime.antt =====
-- Live events: packages/backend/src/realtime.
pub mod Registry
pub mod Membership
pub mod Dispatch
pub mod Delivery
mod Examples
