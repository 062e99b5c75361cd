-- ===== src/MetadataWatcher.antt =====
-- pkg/client/controllers/servicemetadatawatcher_controller.go and the resource of
-- pkg/api/registry/v1alpha1/servicemetadatawatcher_types.go: fields of watched objects that are
-- copied into the service metadata of the clusters.
pub mod Path
pub mod Keys
pub mod Fields
pub mod Indexing
pub mod Resource
pub mod Watcher
pub mod Patches
pub mod Mapping
