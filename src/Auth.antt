-- ===== src/Auth.antt =====
-- Who the user is, and what they may see.
pub mod Permissions
pub mod Expiry
pub mod Routes
pub mod Identity
