-- ===== src/Tests.antt =====
-- Runs of the theorems on a small registry.
mod Data
mod Names
mod Access
mod Uploads
mod Manifests
mod Requests
mod Collection
mod Registry
mod Lossy
mod Accounts
mod Client
mod Resumption
mod Agreement
