-- ===== src/Tests.antt =====
-- A database in memory, which meets the laws that the theorems ask for, and the theorems at concrete
-- inputs.
mod Memory
mod Database
mod Events
mod Controllers
mod SyncManager
mod MetadataWatcher
mod Settings
mod Queue
mod Api
mod Webhook
mod Slt
mod Processes
mod Routes
