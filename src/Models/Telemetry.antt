-- ===== src/Models/Telemetry.antt =====
-- The telemetry snapshot (src/mavctl/models/telemetry.py).
use mavctl.Prelude.{Option, none, Float}

pub record Position : Type 0 where
  pub lat_deg : Option Float
  pub lon_deg : Option Float
  pub alt_msl_m : Option Float
  pub relative_alt_m : Option Float

pub record Attitude : Type 0 where
  pub roll_deg : Option Float
  pub pitch_deg : Option Float
  pub yaw_deg : Option Float

pub record Velocity : Type 0 where
  pub vx_ms : Option Float
  pub vy_ms : Option Float
  pub vz_ms : Option Float
  pub groundspeed_ms : Option Float
  pub heading_deg : Option Float

pub record Telemetry : Type 0 where
  pub timestamp : Option Float
  pub position : Position
  pub attitude : Attitude
  pub velocity : Velocity

-- The defaults of the models.
abbrev pub blank_position : Position
blank_position = record { lat_deg = none; lon_deg = none; alt_msl_m = none; relative_alt_m = none }

abbrev pub blank_attitude : Attitude
blank_attitude = record { roll_deg = none; pitch_deg = none; yaw_deg = none }

abbrev pub blank_velocity : Velocity
blank_velocity = record {
  vx_ms = none;
  vy_ms = none;
  vz_ms = none;
  groundspeed_ms = none;
  heading_deg = none;
}
