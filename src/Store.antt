-- ===== src/Store.antt =====
-- internal/store
pub mod State
pub mod Accounts
pub mod Sessions
pub mod Messages
pub mod Machines
pub mod Artifacts
pub mod Register
pub mod Persistence
pub mod History
pub mod Isolation
