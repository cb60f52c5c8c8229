-- ===== src/Query/Submit.antt =====
-- frontend/src/hooks/useQuerySubmit.ts. `State` is the hook's state and how it shows a failure,
-- `Requests` the four operations up to and from their answer, `Environment` what may happen between.
pub mod State
pub mod Requests
pub mod Environment
pub mod Settling
pub mod Suppression
pub mod Aborts
pub mod Deletions
mod Tests
