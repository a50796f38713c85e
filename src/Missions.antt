-- ===== src/Missions.antt =====
-- The mission schema and its wire form (src/mavctl/models/mission.py).
pub mod Schema
pub mod Wire
pub mod HomeSlot
pub mod Carried
pub mod Lossless
pub mod Bounds
pub mod Sequence
