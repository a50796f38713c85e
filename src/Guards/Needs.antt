-- ===== src/Guards/Needs.antt =====
-- What each command asks of the vehicle, behind the gates, to be sent.
use mavctl.Prelude.{
  ℕ, ◌≤◌, ◌≡◌, ◌≢◌, ◌↔◌, ◌⊎◌, Bool, true, false, some, List, [], ◌∷◌, String, Float, zero_float,
  float_le, float_lt, is_finite, is_text_iff, All, upper, arith,
}
use mathlib.Core.Option.{get_or}
use mavctl.Models.State.{VehicleState}
use mavctl.Models.Mission.{MissionItem, MissionV1, altitude_m}
use mavctl.Guards.Decision.{GuardConfig, GuardDecision, reject}
use mavctl.Guards.Ground.{is_above, reject_unless_grounded}
use mavctl.Guards.Flight.{
  arm_checks, disarm_checks, mode_checks, takeoff_checks, land_checks, rtl_checks, contains,
}
use mavctl.Guards.Mission.{upload_checks, clear_checks, start_checks, exceeds_limit}
use mavctl.Guards.Commands.{
  Command, arm, land, rtl, mission_clear, disarm, mode, takeoff, mission_upload, mission_start,
  check, own_checks, GatesOpen, GatesOpen-is_fresh, gate_checks, check_cases,
}
use mavctl.Guards.Evidence.{OnGround, grounded_iff}

-- The guard lets the daemon send the command to the vehicle.
abbrev pub Executes : GuardDecision → Type 0
Executes d = (d.allowed ≡ true) × (d.already_satisfied ≡ false)

-- A guard executes exactly when both gates are open and its own checks execute.
Executes-iff :
    (c : Command) (state : VehicleState) (confirmed : Bool) (config : GuardConfig)
    → Executes (check c state confirmed config)
      ↔ (GatesOpen state confirmed config × Executes (own_checks c state config gate_checks))
unfolding reject
Executes-iff c state confirmed config = (
  check_cases
      (λ d.
        Executes d
        → GatesOpen state confirmed config × Executes (own_checks c state config gate_checks))
      c state confirmed config (λ _ h. cc h.0) (λ _ _ h. cc h.0) (λ g h. (g, h)),
  check_cases
      (λ d.
        GatesOpen state confirmed config × Executes (own_checks c state config gate_checks)
        → Executes d)
      c state confirmed config (λ n h. cc (h.0).agreed)
      (λ _ old h. cc (GatesOpen-is_fresh state confirmed config h.0)) (λ _ h. h.1),
)

-- So it is enough to know when a guard's own checks execute.
pub Executes-by :
    {Q : Type 0} (c : Command) (state : VehicleState) (confirmed : Bool) (config : GuardConfig)
    → Executes (own_checks c state config gate_checks) ↔ Q
    → Executes (check c state confirmed config) ↔ (GatesOpen state confirmed config × Q)
Executes-by c state confirmed config own = (
  λ h. (
    ((Executes-iff c state confirmed config).0 h).0,
    own.0 ((Executes-iff c state confirmed config).0 h).1,
  ),
  λ h. (Executes-iff c state confirmed config).1 (h.0, own.1 h.1),
)

-- What a command asks of the vehicle, behind the gates, to be sent.
abbrev pub Needs : Command → VehicleState → GuardConfig → Type 0
Needs arm state config =
    (state.armed ≢ some true) × (config.min_gps_fix_type ≤ get_or state.gps.fix_type 0)
Needs land state config = (state.armed ≢ some false) × (state.landed_state ≢ some "on_ground")
Needs rtl state config = (state.armed ≢ some false) × (state.landed_state ≢ some "on_ground")
Needs mission_clear state config = (state.armed ≡ some false) × OnGround state config
Needs (disarm force) state config =
    (state.armed ≢ some false) × ((force ≡ true) ⊎ OnGround state config)
Needs (mode name available) state config =
    (state.flight_mode ≢ some (upper name)) × (contains available (upper name) ≡ true)
Needs (takeoff altitude) state config =
    (is_finite altitude ≡ true)
    × (float_le altitude zero_float ≡ false)
    × (float_lt config.max_takeoff_alt_m altitude ≡ false)
    × (state.flight_mode ≡ some "GUIDED")
    × (state.armed ≡ some true)
Needs (mission_upload mission) state config =
    (state.armed ≡ some false)
    × OnGround state config
    × All (λ item. is_above (altitude_m item) config.max_takeoff_alt_m ≡ false) mission.items
Needs (mission_start count) state config =
    (2 ≤ count)
    × (state.armed ≡ some true)
    × ¬ ((state.flight_mode ≡ some "AUTO") × (state.mission.state ≡ some "active"))

pub takeoff_own :
    (state : VehicleState) (altitude : Float) (config : GuardConfig)
    → Executes (own_checks (takeoff altitude) state config gate_checks) ↔ (
        (is_finite altitude ≡ true)
        × (float_le altitude zero_float ≡ false)
        × (float_lt config.max_takeoff_alt_m altitude ≡ false)
        × (state.flight_mode ≡ some "GUIDED")
        × (state.armed ≡ some true))
unfolding own_checks takeoff_checks
takeoff_own state altitude config = ground (arith, is_text_iff state.flight_mode "GUIDED")

pub disarm_own :
    (state : VehicleState) (force : Bool) (config : GuardConfig)
    → Executes (own_checks (disarm force) state config gate_checks)
      ↔ ((state.armed ≢ some false) × ((force ≡ true) ⊎ OnGround state config))
unfolding own_checks disarm_checks
disarm_own state force config = ground (arith, grounded_iff state config)

exceeds_limit-All :
    (limit : Float) (items : List MissionItem)
    → (exceeds_limit limit items ≡ false)
      ↔ All (λ item. is_above (altitude_m item) limit ≡ false) items
unfolding exceeds_limit
exceeds_limit-All limit [] = ground arith
exceeds_limit-All limit (item ∷ items) = ground (arith, exceeds_limit-All limit items)

pub upload_own :
    (state : VehicleState) (mission : MissionV1) (config : GuardConfig)
    → Executes (own_checks (mission_upload mission) state config gate_checks) ↔ (
        (state.armed ≡ some false)
        × OnGround state config
        × All (λ item. is_above (altitude_m item) config.max_takeoff_alt_m ≡ false) mission.items)
unfolding own_checks upload_checks reject_unless_grounded
upload_own state mission config =
    ground
      (arith, exceeds_limit-All config.max_takeoff_alt_m mission.items, grounded_iff state config)

pub clear_own :
    (state : VehicleState) (config : GuardConfig)
    → Executes (own_checks mission_clear state config gate_checks)
      ↔ ((state.armed ≡ some false) × OnGround state config)
unfolding own_checks clear_checks reject_unless_grounded
clear_own state config = ground (arith, grounded_iff state config)

pub start_own :
    (state : VehicleState) (count : ℕ) (config : GuardConfig)
    → Executes (own_checks (mission_start count) state config gate_checks) ↔ (
        (2 ≤ count)
        × (state.armed ≡ some true)
        × ¬ ((state.flight_mode ≡ some "AUTO") × (state.mission.state ≡ some "active")))
unfolding own_checks start_checks
start_own state count config =
    ground (arith, is_text_iff state.flight_mode "AUTO", is_text_iff state.mission.state "active")

pub arm_own :
    (state : VehicleState) (config : GuardConfig)
    → Executes (own_checks arm state config gate_checks)
      ↔ ((state.armed ≢ some true) × (config.min_gps_fix_type ≤ get_or state.gps.fix_type 0))
unfolding own_checks arm_checks
arm_own state config = ground arith

pub mode_own :
    (state : VehicleState) (name : String) (available : List String) (config : GuardConfig)
    → Executes (own_checks (mode name available) state config gate_checks)
      ↔ ((state.flight_mode ≢ some (upper name)) × (contains available (upper name) ≡ true))
unfolding own_checks mode_checks contains
mode_own state name [] config = ground (arith, is_text_iff state.flight_mode (upper name))
mode_own state name (first ∷ rest) config =
    ground (arith, is_text_iff state.flight_mode (upper name))

pub land_own :
    (state : VehicleState) (config : GuardConfig)
    → Executes (own_checks land state config gate_checks) ↔ Needs land state config
unfolding own_checks land_checks
land_own state config = ground (arith, is_text_iff state.landed_state "on_ground")

pub rtl_own :
    (state : VehicleState) (config : GuardConfig)
    → Executes (own_checks rtl state config gate_checks) ↔ Needs rtl state config
unfolding own_checks rtl_checks
rtl_own state config = ground (arith, is_text_iff state.landed_state "on_ground")
