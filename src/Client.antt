-- ===== src/Client.antt =====
-- The browser's side of the live connection: packages/frontend/src/realtime.
pub mod Health
pub mod Timers
pub mod Recovery
mod Examples
