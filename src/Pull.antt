-- ===== src/Pull.antt =====
-- The PullRequest controller: controllers/pullrequest_controller.go.
pub mod Secrets
pub mod RestCheck
pub mod Resources
pub mod Repository
pub mod Writing
pub mod Status
pub mod Schedule
pub mod Reconcile
pub mod Lifetime
