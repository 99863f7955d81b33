-- ===== src/Sockets.antt =====
-- The Socket.io handlers (src/sockets), over the state of the services that they call.
pub mod State
pub mod Names
pub mod SfuEvents
pub mod RoomEvents
pub mod SignalingEvents
pub mod PresenceEvents
pub mod Trimming
pub mod Chat
pub mod Relay
pub mod Passwords
pub mod Eviction
pub mod Cleanup
pub mod SfuGuard
