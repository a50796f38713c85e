-- ===== src/Examples/Snapshots.antt =====
-- Snapshots of a vehicle on the ground, and of one that is ready to take off.
use mavctl.Prelude.{true, false, some, [], ◌∷◌, metres, seconds, thousandths}
use mavctl.Models.State.{VehicleState, blank}
use mavctl.Models.Mission.{MissionV1, takeoff, waypoint, rtl}

-- Connected, disarmed and reported on the ground, with recent evidence.
abbrev pub parked : VehicleState
parked = record blank {
  connected = true;
  heartbeat_age_s = some (seconds 1);
  flight_mode = some "STABILIZE";
  armed = some false;
  landed_state = some "on_ground";
  landed_state_age_s = some (thousandths 500);
  relative_alt_m = some (thousandths 100);
  telemetry_age_s = some (thousandths 200);
  gps = record { fix_type = some 3; fix_label = some "3d_fix"; satellites_visible = some 9 };
}

-- The same vehicle, armed in GUIDED.
abbrev pub ready : VehicleState
ready = record parked { flight_mode = some "GUIDED"; armed = some true }

abbrev pub short_mission : MissionV1
short_mission = record {
  version = 1;
  items =
      takeoff (metres 10)
      ∷ waypoint (metres 47) (metres 8) (metres 20) (metres 0) (metres 0)
      ∷ rtl
      ∷ [];
}
