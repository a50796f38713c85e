-- ===== src/Models.antt =====
-- The data models shared by the daemon, the adapter and the command line (src/mavctl/models/).
pub mod Protocol
pub mod Health
pub mod State
pub mod Command
pub mod Mission
pub mod Operation
pub mod Telemetry
pub mod Link
