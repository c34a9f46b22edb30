-- ===== src/Tests.antt =====
-- A platform in memory, and the theorems at concrete data.
mod Memory
mod Witnesses
mod Frames
mod Pulls
mod PullFrames
mod PullWitnesses
mod Commits
mod Keys
mod Processes
mod Meters
mod Lifetimes
mod PullLifetimes
mod Clusters
mod ClusterWitnesses
mod Leftovers
