-- ===== src/Auth/Identity.antt =====
-- The identity boundary of frontend/src/providers/QueryProvider.tsx: its state and what is rendered
-- from it, its events, and what they keep apart.
pub mod State
pub mod Events
pub mod Clients
pub mod Generations
pub mod Laws
mod Tests
