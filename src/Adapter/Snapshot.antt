-- ===== src/Adapter/Snapshot.antt =====
-- The snapshot of src/mavctl/adapter/pymavlink_adapter.py: the fields that `_lock` guards, and
-- the handlers that fill them from the messages of the locked autopilot. A handler reads the
-- monotonic and the wall clock at one instant.
use mavctl.Prelude.{ℕ, Bool, Option, none, List, [], String, Float}
use mavctl.Models.State.{
  Battery, GpsInfo, HomePosition, MissionExecutionState, blank_battery, blank_gps,
}
use mavctl.Models.Telemetry.{
  Position, Attitude, Velocity, blank_position, blank_attitude, blank_velocity,
}
use mavctl.Models.Health.{Variances}
use mavctl.Adapter.Link.{Target, Sender, placeholder}
use mavctl.Adapter.Dialect.{MavMessage}

-- A message as it arrives: its source and the two clock readings.
pub record Arrival : Type 0 where
  pub sender : Sender
  pub message : MavMessage
  pub mono : Float
  pub epoch : Float

pub record Snapshot : Type 0 where
  pub target : Target
  pub system_id : Option ℕ
  pub component_id : Option ℕ
  pub last_hb_monotonic : Option Float
  pub last_hb_epoch : Option Float
  pub flight_mode : Option String
  pub armed : Option Bool
  pub system_status : Option String
  pub landed_state : Option String
  pub relative_alt_m : Option Float
  pub battery : Battery
  pub gps : GpsInfo
  pub home : Option HomePosition
  pub position : Position
  pub attitude : Attitude
  pub velocity : Velocity
  pub telemetry_ts : Option Float
  pub battery_ts_mono : Option Float
  pub gps_ts_mono : Option Float
  pub telemetry_ts_mono : Option Float
  pub home_ts_mono : Option Float
  pub landed_state_ts_mono : Option Float
  pub mission_execution : Option MissionExecutionState
  pub mission_execution_ts_mono : Option Float
  pub ekf_flags_mask : Option ℕ
  pub ekf_flags_names : List String
  pub ekf_variances : Option Variances
  pub ekf_ts_mono : Option Float
  pub sensors_present : Option ℕ
  pub sensors_enabled : Option ℕ
  pub sensors_health : Option ℕ
  pub sensors_ts_mono : Option Float
  pub prearm_last_message : Option String
  pub prearm_severity : Option ℕ
  pub prearm_ts_mono : Option Float

-- `__init__`
unfoldable pub empty_snapshot : Snapshot
unfolding placeholder
empty_snapshot = record {
  target = placeholder;
  system_id = none;
  component_id = none;
  last_hb_monotonic = none;
  last_hb_epoch = none;
  flight_mode = none;
  armed = none;
  system_status = none;
  landed_state = none;
  relative_alt_m = none;
  battery = blank_battery;
  gps = blank_gps;
  home = none;
  position = blank_position;
  attitude = blank_attitude;
  velocity = blank_velocity;
  telemetry_ts = none;
  battery_ts_mono = none;
  gps_ts_mono = none;
  telemetry_ts_mono = none;
  home_ts_mono = none;
  landed_state_ts_mono = none;
  mission_execution = none;
  mission_execution_ts_mono = none;
  ekf_flags_mask = none;
  ekf_flags_names = [];
  ekf_variances = none;
  ekf_ts_mono = none;
  sensors_present = none;
  sensors_enabled = none;
  sensors_health = none;
  sensors_ts_mono = none;
  prearm_last_message = none;
  prearm_severity = none;
  prearm_ts_mono = none;
}
