-- ===== src/Client.antt =====
-- crates/jcr: the command line client, as far as it pushes images to a registry.
pub mod Exec
pub mod Runs
pub mod Ranges
pub mod Requests
pub mod Login
pub mod Upload
pub mod Registry
