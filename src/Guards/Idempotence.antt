-- ===== src/Guards/Idempotence.antt =====
-- When a guard reports its command as already satisfied.
use mavctl.Prelude.{◌≤◌, ◌≡◌, ◌↔◌, ◌⊎◌, Bool, true, false, some, is_text_iff, upper, arith}
use mavctl.Models.State.{VehicleState}
use mavctl.Guards.Decision.{GuardConfig, reject}
use mavctl.Guards.Ground.{reject_unless_grounded}
use mavctl.Guards.Flight.{
  arm_checks, disarm_checks, mode_checks, takeoff_checks, land_checks, rtl_checks,
}
use mavctl.Guards.Mission.{upload_checks, clear_checks, start_checks}
use mavctl.Guards.Commands.{
  Command, arm, land, rtl, disarm, mode, mission_start, check, own_checks, GatesOpen,
  GatesOpen-is_fresh, gate_checks, check_cases,
}

-- What must be known of the vehicle for a command to have nothing to do.
abbrev pub Evidence : Command → VehicleState → Type 0
Evidence arm state = state.armed ≡ some true
Evidence (disarm force) state = state.armed ≡ some false
Evidence (mode name available) state = state.flight_mode ≡ some (upper name)
Evidence land state = (state.armed ≡ some false) ⊎ (state.landed_state ≡ some "on_ground")
Evidence rtl state = (state.armed ≡ some false) ⊎ (state.landed_state ≡ some "on_ground")
Evidence (mission_start count) state =
    (2 ≤ count)
    × (state.armed ≡ some true)
    × (state.flight_mode ≡ some "AUTO")
    × (state.mission.state ≡ some "active")
Evidence _ state = ⊥

own_satisfied :
    (c : Command) (state : VehicleState) (config : GuardConfig)
    → ((own_checks c state config gate_checks).already_satisfied ≡ true) ↔ Evidence c state
unfolding own_checks arm_checks disarm_checks mode_checks takeoff_checks land_checks rtl_checks
    upload_checks clear_checks start_checks reject_unless_grounded
own_satisfied arm state config = ground arith
own_satisfied (mode name available) state config =
    ground (arith, is_text_iff state.flight_mode (upper name))
own_satisfied land state config = ground (arith, is_text_iff state.landed_state "on_ground")
own_satisfied rtl state config = ground (arith, is_text_iff state.landed_state "on_ground")
own_satisfied (mission_start count) state config =
    ground (arith, is_text_iff state.flight_mode "AUTO", is_text_iff state.mission.state "active")
own_satisfied c state config = ground arith

-- A command is reported as already satisfied exactly when the gates are open and the snapshot
-- shows its goal: an armed or disarmed flag that is known, the target mode, a landed report, or
-- an active mission in AUTO with a stored mission and armed motors. For takeoff and for mission
-- upload and clear that is never.
pub satisfied_iff :
    (c : Command) (state : VehicleState) (confirmed : Bool) (config : GuardConfig)
    → ((check c state confirmed config).already_satisfied ≡ true)
      ↔ (GatesOpen state confirmed config × Evidence c state)
unfolding reject
satisfied_iff c state confirmed config = (
  check_cases
      (λ d. d.already_satisfied ≡ true → GatesOpen state confirmed config × Evidence c state) c
      state confirmed config (λ _ h. cc) (λ _ _ h. cc)
      (λ g h. (g, (own_satisfied c state config).0 h)),
  check_cases
      (λ d. GatesOpen state confirmed config × Evidence c state → d.already_satisfied ≡ true) c
      state confirmed config (λ n h. cc (h.0).agreed)
      (λ _ old h. cc (GatesOpen-is_fresh state confirmed config h.0))
      (λ _ h. (own_satisfied c state config).1 h.1),
)
