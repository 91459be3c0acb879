-- ===== src/Api.antt =====
-- internal/api: the handlers, over the store and the orchestrator.
pub mod Reply
pub mod Operations
pub mod Boot
pub mod Deployments
pub mod Discovered
pub mod Sessions
pub mod Catalog
pub mod Timers
pub mod Console
pub mod Boots
pub mod ConsoleLaws
pub mod Discovery
pub mod Growth
pub mod Profiles
pub mod Teardown
pub mod Adopted
pub mod Guarded
