-- ===== src/Request.antt =====
-- The lifetime of a request in the browser.
pub mod Scope
