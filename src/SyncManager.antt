-- ===== src/SyncManager.antt =====
-- pkg/sync: the manager that builds partial clusters from other resources, and
-- pkg/api/registry/v1/merge.go.
pub mod Objects
pub mod Handlers
pub mod Merge
pub mod Tiers
pub mod Parser
pub mod Controller
pub mod Settling
pub mod Sending
pub mod Requests
