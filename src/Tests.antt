-- ===== src/Tests.antt =====
-- Test data, and the theorems at concrete inputs.
pub mod Data
pub mod Rooms
mod Lists
pub mod Sockets
pub mod Accounts
pub mod Requests
mod Systems
pub mod Services
