-- ===== src/Agent.antt =====
-- cmd/agent: the agent's checksum manifests, churn plans and progress.
pub mod Manifest
pub mod Entries
pub mod Verified
pub mod Churn
pub mod Picks
pub mod ChurnLaws
