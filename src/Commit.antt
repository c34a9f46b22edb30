-- ===== src/Commit.antt =====
-- controllers/gitcommit_controller.go
pub mod Secrets
pub mod Status
pub mod Content
pub mod Resources
pub mod RestCheck
pub mod Writing
pub mod Ttl
pub mod Outcome
pub mod Schedule
pub mod Reconcile
pub mod Lifetime
