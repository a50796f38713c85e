-- ===== src/Guards/Safety.antt =====
-- When exactly each guard lets its command go on, and what an unknown state can never do.
use mavctl.Prelude.{
  ℕ, ◌≤◌, ◌≡◌, ◌≢◌, ◌↔◌, ◌⊎◌, Bool, true, false, some, List, String, Float, zero_float, float_le,
  float_lt, is_finite, All, upper,
}
use mathlib.Core.Option.{get_or}
use mavctl.Models.State.{VehicleState}
use mavctl.Models.Mission.{MissionV1, altitude_m}
use mavctl.Guards.Decision.{GuardConfig}
use mavctl.Guards.Ground.{is_above}
use mavctl.Guards.Flight.{contains}
use mavctl.Guards.Commands.{
  Command, arm, land, rtl, mission_clear, disarm, mode, takeoff, mission_upload, mission_start,
  check, GatesOpen,
}
use mavctl.Guards.Evidence.{OnGround}
use mavctl.Guards.Needs.{
  Executes, Executes-by, Needs, takeoff_own, disarm_own, upload_own, clear_own, start_own, arm_own,
  mode_own, land_own, rtl_own,
}

-- `takeoff` is sent exactly when the gates are open, the altitude is a finite positive number up
-- to the limit, the mode is GUIDED and the vehicle is known to be armed.
pub takeoff_iff :
    (state : VehicleState) (altitude : Float) (confirmed : Bool) (config : GuardConfig)
    → Executes (check (takeoff altitude) state confirmed config) ↔ (
        GatesOpen state confirmed config
        × ((is_finite altitude ≡ true)
            × (float_le altitude zero_float ≡ false)
            × (float_lt config.max_takeoff_alt_m altitude ≡ false)
            × (state.flight_mode ≡ some "GUIDED")
            × (state.armed ≡ some true)))
takeoff_iff state altitude confirmed config =
    Executes-by (takeoff altitude) state confirmed config (takeoff_own state altitude config)

-- `disarm` is sent exactly when the gates are open, the vehicle is not known to be disarmed, and
-- either it is forced or the vehicle is on the ground by recent evidence.
pub disarm_iff :
    (state : VehicleState) (force confirmed : Bool) (config : GuardConfig)
    → Executes (check (disarm force) state confirmed config) ↔ (
        GatesOpen state confirmed config
        × ((state.armed ≢ some false) × ((force ≡ true) ⊎ OnGround state config)))
disarm_iff state force confirmed config =
    Executes-by (disarm force) state confirmed config (disarm_own state force config)

-- `mission upload` is sent exactly when the gates are open, the vehicle is known to be disarmed,
-- it is on the ground by recent evidence, and no item is above the altitude limit.
pub mission_upload_iff :
    (state : VehicleState) (mission : MissionV1) (confirmed : Bool) (config : GuardConfig)
    → Executes (check (mission_upload mission) state confirmed config) ↔ (
        GatesOpen state confirmed config
        × ((state.armed ≡ some false)
            × OnGround state config
            × All
                (λ item. is_above (altitude_m item) config.max_takeoff_alt_m ≡ false)
                mission.items))
mission_upload_iff state mission confirmed config =
    Executes-by (mission_upload mission) state confirmed config (upload_own state mission config)

-- `mission clear` is sent exactly when the gates are open, the vehicle is known to be disarmed
-- and it is on the ground by recent evidence.
pub mission_clear_iff :
    (state : VehicleState) (confirmed : Bool) (config : GuardConfig)
    → Executes (check mission_clear state confirmed config)
      ↔ (GatesOpen state confirmed config × ((state.armed ≡ some false) × OnGround state config))
mission_clear_iff state confirmed config =
    Executes-by mission_clear state confirmed config (clear_own state config)

-- `mission start` is sent exactly when the gates are open, the vehicle reports at least two wire
-- items, it is known to be armed, and it is not already running the mission in AUTO.
pub mission_start_iff :
    (state : VehicleState) (count : ℕ) (confirmed : Bool) (config : GuardConfig)
    → Executes (check (mission_start count) state confirmed config) ↔ (
        GatesOpen state confirmed config
        × ((2 ≤ count)
            × (state.armed ≡ some true)
            × ¬ ((state.flight_mode ≡ some "AUTO") × (state.mission.state ≡ some "active"))))
mission_start_iff state count confirmed config =
    Executes-by (mission_start count) state confirmed config (start_own state count config)

-- `arm` is sent exactly when the gates are open, the vehicle is not known to be armed and the GPS
-- fix, 0 if none was received, is at least the configured one.
pub arm_iff :
    (state : VehicleState) (confirmed : Bool) (config : GuardConfig)
    → Executes (check arm state confirmed config) ↔ (
        GatesOpen state confirmed config
        × ((state.armed ≢ some true) × (config.min_gps_fix_type ≤ get_or state.gps.fix_type 0)))
arm_iff state confirmed config = Executes-by arm state confirmed config (arm_own state config)

-- `mode` is sent exactly when the gates are open, the vehicle is not already in the mode, and the
-- upper-case name is one that the vehicle offers.
pub mode_iff :
    (state : VehicleState) (name : String) (available : List String) (confirmed : Bool)
    (config : GuardConfig)
    → Executes (check (mode name available) state confirmed config) ↔ (
        GatesOpen state confirmed config
        × ((state.flight_mode ≢ some (upper name)) × (contains available (upper name) ≡ true)))
mode_iff state name available confirmed config =
    Executes-by (mode name available) state confirmed config (mode_own state name available config)

-- Each of the nine guards lets its command be sent exactly when the command is confirmed, the
-- heartbeat is fresh and the vehicle is as the command needs it: known to be armed, or known to be
-- disarmed, or not known to be so already; on the ground by recent evidence for mission upload
-- and clear and for a disarm that is not forced; in GUIDED and within the altitude limit for
-- takeoff; with a mission on board for mission start.
pub check_iff :
    (c : Command) (state : VehicleState) (confirmed : Bool) (config : GuardConfig)
    → Executes (check c state confirmed config)
      ↔ (GatesOpen state confirmed config × Needs c state config)
check_iff arm state confirmed config = arm_iff state confirmed config
check_iff land state confirmed config =
    Executes-by land state confirmed config (land_own state config)
check_iff rtl state confirmed config = Executes-by rtl state confirmed config (rtl_own state config)
check_iff mission_clear state confirmed config = mission_clear_iff state confirmed config
check_iff (disarm force) state confirmed config = disarm_iff state force confirmed config
check_iff (mode name available) state confirmed config =
    mode_iff state name available confirmed config
check_iff (takeoff altitude) state confirmed config = takeoff_iff state altitude confirmed config
check_iff (mission_upload mission) state confirmed config =
    mission_upload_iff state mission confirmed config
check_iff (mission_start count) state confirmed config =
    mission_start_iff state count confirmed config
