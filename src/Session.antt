-- ===== src/Session.antt =====
-- Chat sessions in the browser: their deletion, the lists that show them, and the toast that
-- can undo a deletion.
pub mod Deletion
pub mod Lists
pub mod Undo
