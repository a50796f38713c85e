-- ===== src/Cli.antt =====
-- The command line (src/mavctl/cli/app.py and src/mavctl/cli/render.py).
pub mod Terminal
pub mod Flight
pub mod Mission
pub mod Invocation
pub mod Asked
pub mod Verbs
pub mod Typed
pub mod EndToEnd
pub mod Contract
pub mod Honest
pub mod Daemon
pub mod Starting
