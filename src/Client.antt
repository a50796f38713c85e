-- ===== src/Client.antt =====
-- The client of the daemon (src/mavctl/daemon/client.py) and the frames that it exchanges with the
-- server (src/mavctl/daemon/wire.py).
pub mod Wire
pub mod Socket
pub mod Delivery
pub mod Transparent
