-- ===== src/Api.antt =====
-- The HTTP side of internal/api: admin.go, user.go and server.go. The handlers of relay.go are in Relay.
pub mod Action
pub mod Views
pub mod Shared
pub mod Admin
pub mod User
pub mod Routes
pub mod Prefixes
pub mod Gate
pub mod Refused
pub mod Server
pub mod Kept
pub mod Isolation
pub mod Owners
pub mod Private
pub mod Strangers
mod Tests
