-- ===== src/Auth.antt =====
-- Who a user is and what they may see: packages/backend/src/auth.
pub mod Roles
pub mod Precedence
pub mod RoleSets
pub mod TeamAccess
pub mod TeamScopes
mod Examples
