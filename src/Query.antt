-- ===== src/Query.antt =====
-- Asking a question: the requests of one chat turn and their result.
pub mod Submit
