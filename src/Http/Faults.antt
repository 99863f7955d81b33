-- ===== src/Http/Faults.antt =====
-- The status codes of the answers, and the failures that they come from.
pub mod Codes
pub mod Services
pub mod Requests
