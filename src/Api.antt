-- ===== src/Api.antt =====
-- The checks that frontend/src/api/responseValidation.ts makes of a response.
pub mod Download
pub mod Semantics
pub mod Matching
pub mod Sanitizing
pub mod Responses
