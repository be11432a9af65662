-- ===== src/RateLimit.antt =====
-- Rate limits over Redis: packages/backend/src/auth/sliding-window-limiter.ts and its users.
pub mod Windows
pub mod Tracking
pub mod Bounds
pub mod TopicWrites
pub mod Waits
pub mod Denials
mod Examples
