-- ===== src/Models/State.antt =====
-- The vehicle status snapshot (src/mavctl/models/state.py). A field that is `None` until its
-- message arrives is an `Option`; ages and altitudes are floats.
use mavctl.Prelude.{ℕ, String, Bool, false, Option, none, Float}
use mavctl.Models.Health.{HealthObservation, blank_health}

pub record Battery : Type 0 where
  pub voltage_v : Option Float
  pub current_a : Option Float
  pub remaining_pct : Option ℕ

pub record GpsInfo : Type 0 where
  pub fix_type : Option ℕ
  pub fix_label : Option String
  pub satellites_visible : Option ℕ

pub record HomePosition : Type 0 where
  pub lat_deg : Option Float
  pub lon_deg : Option Float
  pub alt_msl_m : Option Float

pub record MissionExecutionState : Type 0 where
  pub current_seq : Option ℕ
  pub total : Option ℕ
  pub state : Option String
  pub mode : Option String
  pub age_s : Option Float

pub record VehicleState : Type 0 where
  pub connected : Bool
  pub connection_string : Option String
  pub system_id : Option ℕ
  pub component_id : Option ℕ
  pub last_heartbeat_ts : Option Float
  pub heartbeat_age_s : Option Float
  pub flight_mode : Option String
  pub armed : Option Bool
  pub system_status : Option String
  pub landed_state : Option String
  pub relative_alt_m : Option Float
  pub battery : Battery
  pub gps : GpsInfo
  pub home_position : Option HomePosition
  pub telemetry_age_s : Option Float
  pub gps_age_s : Option Float
  pub battery_age_s : Option Float
  pub home_position_age_s : Option Float
  pub landed_state_age_s : Option Float
  pub mission : MissionExecutionState
  pub health : HealthObservation

-- Nothing received yet.
abbrev pub blank_battery : Battery
blank_battery = record { voltage_v = none; current_a = none; remaining_pct = none }

abbrev pub blank_gps : GpsInfo
blank_gps = record { fix_type = none; fix_label = none; satellites_visible = none }

abbrev pub blank_execution : MissionExecutionState
blank_execution = record {
  current_seq = none;
  total = none;
  state = none;
  mode = none;
  age_s = none;
}

abbrev pub blank : VehicleState
blank = record {
  connected = false;
  connection_string = none;
  system_id = none;
  component_id = none;
  last_heartbeat_ts = none;
  heartbeat_age_s = none;
  flight_mode = none;
  armed = none;
  system_status = none;
  landed_state = none;
  relative_alt_m = none;
  battery = blank_battery;
  gps = blank_gps;
  home_position = none;
  telemetry_age_s = none;
  gps_age_s = none;
  battery_age_s = none;
  home_position_age_s = none;
  landed_state_age_s = none;
  mission = blank_execution;
  health = blank_health;
}
