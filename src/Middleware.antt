-- ===== src/Middleware.antt =====
-- api/middleware: what stands between a request and its handler.
pub mod Errors
pub mod Auth
