-- ===== src/Orch.antt =====
-- internal/orch: the jobs of a deployment.
pub mod State
pub mod Jobs
pub mod Rates
pub mod Start
pub mod Exclusion
pub mod Resume
pub mod ResumeLaws
pub mod History
pub mod Assigned
pub mod StartFill
pub mod Gate
pub mod Driver
pub mod Fleet
pub mod Watch
pub mod Tasks
pub mod TeardownLaws
pub mod JobEnds
pub mod FillRun
pub mod FillEnds
pub mod FillRecord
pub mod FillBoots
pub mod JobRecord
pub mod Reconcile
pub mod ReconcileLaws
pub mod ReconcileCover
pub mod Adopt
pub mod RebindCalls
pub mod Rebind
pub mod LockMap
pub mod Locks
