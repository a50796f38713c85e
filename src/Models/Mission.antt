-- ===== src/Models/Mission.antt =====
-- Mission items of schema v1 (src/mavctl/models/mission.py).
use mavctl.Prelude.{ℕ, Bool, List, Option, none, some, Float}

pub data MissionItem : Type 0 where
  takeoff : Float → MissionItem
  waypoint : Float → Float → Float → Float → Float → MissionItem
  land : Float → Float → Float → Float → MissionItem
  rtl : MissionItem

-- `getattr(item, "altitude_m", None)`
unfoldable pub altitude_m : MissionItem → Option Float
altitude_m (takeoff altitude) = some altitude
altitude_m (waypoint lat_deg lon_deg altitude hold_s accept_radius_m) = some altitude
altitude_m (land lat_deg lon_deg altitude abort_alt_m) = some altitude
altitude_m rtl = none

pub record MissionV1 : Type 0 where
  pub version : ℕ
  pub items : List MissionItem

-- A result of a mission transaction: a `MAV_MISSION_RESULT`, or a name that the code writes itself.
pub data MissionResult : Type 0 where
  mission_result : ℕ → MissionResult
  timed_out_result uncertain_result no_space_result unsupported_result : MissionResult

pub data MissionAction : Type 0 where
  mission_upload mission_clear : MissionAction

pub record MissionOutcome : Type 0 where
  pub action : MissionAction
  pub accepted : Bool
  pub item_count : Option ℕ
  pub verified : Option Bool
  pub observed_count : Option ℕ
  pub sent_upto : Option ℕ
