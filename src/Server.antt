-- ===== src/Server.antt =====
-- The daemon's server (src/mavctl/daemon/server.py).
pub mod Interface
pub mod Params
pub mod Response
pub mod Replies
pub mod World
pub mod Flight
pub mod Missions
pub mod Dispatch
pub mod Sent
pub mod Behind
pub mod Effects
pub mod Dispatched
pub mod Accepted
pub mod Activates
pub mod Observe
pub mod Observed
pub mod Sessions
pub mod Answers
pub mod Connection
pub mod Backed
pub mod Backing
pub mod Vouched
