-- ===== src/Store.antt =====
-- internal/store: the tables and the statements over them.
pub mod Db
pub mod Vms
pub mod Runs
pub mod Deployments
pub mod Schedules
pub mod Discovered
pub mod Filled
pub mod Deletion
pub mod Progress
pub mod Calls
pub mod Profiles
pub mod Connections
pub mod CatalogLaws
