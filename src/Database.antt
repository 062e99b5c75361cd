-- ===== src/Database.antt =====
-- pkg/database: the store of clusters, kept in a DynamoDB table.
pub mod Api
pub mod Filter
pub mod Store
pub mod Listing
