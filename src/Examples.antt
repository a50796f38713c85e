-- ===== src/Examples.antt =====
-- The theorems applied to concrete snapshots, registries and messages.
mod Snapshots
mod GuardRuns
mod RegistryRuns
mod MissionRuns
mod UploadHistories
mod ClearHistories
mod CommandHistories
pub mod Daemon
pub mod ServerRuns
pub mod DownloadHistories
pub mod SnapshotRuns
pub mod CommandLine
