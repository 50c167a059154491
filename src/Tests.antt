-- ===== src/Tests.antt =====
-- Each theorem applied to a concrete input, and runs of the definitions.
pub mod Data
pub mod Sessions
pub mod Machines
pub mod Artifacts
pub mod Accounts
pub mod RateLimit
pub mod Channels
pub mod Packets
pub mod History
pub mod Calls
pub mod Events
pub mod Requests
