-- ===== src/Adapter.antt =====
-- The vehicle adapter (src/mavctl/adapter/pymavlink_adapter.py).
pub mod Inbox
pub mod Count
pub mod Clear
pub mod CountRuns
pub mod ClearRuns
pub mod Upload
pub mod UploadOrder
pub mod UploadRuns
pub mod UploadCompletes
pub mod Link
pub mod Exchange
pub mod ExchangeTrust
pub mod ExchangeEnds
pub mod LockFinal
pub mod UploadCounts
pub mod Download
pub mod DownloadExact
pub mod DownloadRuns
pub mod DownloadHeard
pub mod DownloadHonest
pub mod Dialect
pub mod Snapshot
pub mod Handlers
pub mod Observation
pub mod Vouched
pub mod VouchedRuns
pub mod Told
pub mod Verbs
pub mod VerbFrames
