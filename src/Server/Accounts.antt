-- ===== src/Server/Accounts.antt =====
-- crates/jcrd/src/db.rs, lines 92-475 and 562-655: user names, registration, personal access tokens
-- and sessions of browsers.
pub mod Username
pub mod Registration
pub mod Tokens
pub mod Browser
