-- ===== src/Examples.antt =====
-- The theorems at concrete inputs: a cluster of one module, in the files below.
pub mod Data
mod Settings
mod Managers
mod DaemonSetRuns
mod Reconciliations
mod Preflights
mod HubRuns
mod PodRuns
mod ClaimRuns
mod CaRuns
mod SigningRuns
mod ToolkitRuns
mod RegistryRuns
