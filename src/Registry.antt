-- ===== src/Registry.antt =====
-- pkg/api/registry/v1: the Cluster resource.
pub mod Cluster
