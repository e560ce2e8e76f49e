-- ===== src/Server.antt =====
-- crates/jcrd: the registry server.
pub mod Error
pub mod Endpoint
pub mod Database
pub mod Exec
pub mod Types
pub mod Range
pub mod Session
pub mod Access
pub mod Auth
pub mod Token
pub mod Authorize
pub mod Upload
pub mod Commit
pub mod Manifests
pub mod Start
pub mod Reads
pub mod Dispatch
pub mod Gc
pub mod Accounts
