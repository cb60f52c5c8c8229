-- ===== src/Workspace.antt =====
-- The page of frontend/src/pages/WorkspacePage.tsx: the conversation of a session and the handlers
-- that change it.
pub mod Turns
pub mod Page
pub mod Deleting
pub mod Answers
pub mod Submitting
pub mod Retrying
pub mod Showing
pub mod Restoring
pub mod Refusing
pub mod Late
pub mod Settling
pub mod Selection
mod Tests
