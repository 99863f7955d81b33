-- ===== src/Http.antt =====
-- The HTTP side: the middleware and the routes (src/app.js, src/middleware and src/routes).
pub mod Errors
pub mod Requests
pub mod Payloads
pub mod Routes
pub mod Access
pub mod Reading
pub mod Failures
pub mod Faults
