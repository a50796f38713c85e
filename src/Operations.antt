-- ===== src/Operations.antt =====
-- The operation registry of the daemon (src/mavctl/daemon/operations.py).
pub mod Registry
pub mod Table
pub mod Invariant
pub mod Activation
pub mod Fencing
pub mod Deadline
pub mod Calls
pub mod Traces
pub mod Ownership
pub mod Writes
pub mod Owner
pub mod Owned
pub mod Replay
