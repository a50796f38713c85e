-- ===== src/Guards.antt =====
-- The safety guards of state-changing commands (src/mavctl/daemon/guards.py).
pub mod Decision
pub mod Ground
pub mod Flight
pub mod Mission
pub mod Commands
pub mod Gates
pub mod Coherence
pub mod Evidence
pub mod Needs
pub mod Safety
pub mod Idempotence
