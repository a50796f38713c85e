-- ===== src/Process.antt =====
-- The daemon's process (src/mavctl/daemon/process.py and src/mavctl/daemon/__main__.py).
pub mod Files
pub mod Lifecycle
pub mod Entry
pub mod Drift
pub mod Stopping
