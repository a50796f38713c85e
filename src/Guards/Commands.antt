-- ===== src/Guards/Commands.antt =====
-- Every guarded command in one type, so that a statement can range over all of them, and the
-- gates that open before a guard looks at its own preconditions.
use mavctl.Prelude.{
  upper, ℕ, ◌≡◌, refl, inl, inr, Bool, true, false, List, [], ◌∷◌, String, Float, Within,
  Bool-cases, arith,
}
use mavctl.Models.Protocol.{vehicle_not_connected, safety_rejected}
use mavctl.Models.State.{VehicleState}
use mavctl.Models.Mission.{MissionV1}
use mavctl.Guards.Decision.{
  GuardConfig, GuardCheck, GuardDecision, Action, pass, reject, preamble, return_or, confirm,
  connected, confirmation_required, not_connected, is_fresh,
}
use mavctl.Guards.Decision
use mavctl.Guards.Flight.{
  arm_checks, disarm_checks, mode_checks, takeoff_checks, land_checks, rtl_checks, check_arm,
  check_disarm, check_mode, check_takeoff, check_land, check_rtl,
}
use mavctl.Guards.Mission.{
  upload_checks, clear_checks, start_checks, check_mission_upload, check_mission_clear,
  check_mission_start,
}

pub data Command : Type 0 where
  arm land rtl mission_clear : Command
  disarm : Bool → Command
  mode : String → List String → Command
  takeoff : Float → Command
  mission_upload : MissionV1 → Command
  mission_start : ℕ → Command

unfoldable pub action_of : Command → Action
action_of arm = Decision.arm
action_of land = Decision.land
action_of rtl = Decision.rtl
action_of mission_clear = Decision.mission_clear
action_of (disarm force) = Decision.disarm
action_of (mode name available) = Decision.mode
action_of (takeoff altitude) = Decision.takeoff
action_of (mission_upload mission) = Decision.mission_upload
action_of (mission_start count) = Decision.mission_start

-- The guard that the daemon runs for a command.
unfoldable pub check : Command → VehicleState → Bool → GuardConfig → GuardDecision
check arm state confirmed config = check_arm state confirmed config
check land state confirmed config = check_land state confirmed config
check rtl state confirmed config = check_rtl state confirmed config
check mission_clear state confirmed config = check_mission_clear state confirmed config
check (disarm force) state confirmed config = check_disarm state confirmed force config
check (mode name available) state confirmed config =
    check_mode state name available confirmed config
check (takeoff altitude) state confirmed config = check_takeoff state altitude confirmed config
check (mission_upload mission) state confirmed config =
    check_mission_upload state mission confirmed config
check (mission_start count) state confirmed config =
    check_mission_start state count confirmed config

-- The command is confirmed and the heartbeat is there and fresh.
pub record GatesOpen (state : VehicleState) (confirmed : Bool) (config : GuardConfig) : Type 0 where
  pub agreed : confirmed ≡ true
  pub linked : state.connected ≡ true
  pub recent : Within state.heartbeat_age_s config.max_heartbeat_age_s

pub is_fresh-GatesOpen :
    (state : VehicleState) (config : GuardConfig)
    → is_fresh state config ≡ true
    → GatesOpen state true config
unfolding is_fresh
is_fresh-GatesOpen state config h = ground arith

pub GatesOpen-is_fresh :
    (state : VehicleState) (confirmed : Bool) (config : GuardConfig)
    → GatesOpen state confirmed config
    → is_fresh state config ≡ true
unfolding is_fresh
GatesOpen-is_fresh state confirmed config g = ground arith

abbrev pub gate_checks : List GuardCheck
unfolding pass
gate_checks = pass confirm ∷ pass connected ∷ []

-- A guard answers in one of three ways: at the first gate, at the second, or by its own checks.
pub preamble_cases {ℓ} :
    (P : GuardDecision → Type ℓ) (action : Action) (state : VehicleState) (confirmed : Bool)
    (config : GuardConfig) (rest : List GuardCheck → GuardDecision)
    → (confirmed ≡ false → P (reject action confirmation_required [] confirm safety_rejected))
    → (confirmed ≡ true
        → is_fresh state config ≡ false
        → P (reject action not_connected (pass confirm ∷ []) connected vehicle_not_connected))
    → (GatesOpen state confirmed config → P (rest gate_checks))
    → P (
        let (terminal, checks) = preamble action state confirmed config in
        return_or terminal (rest checks))
unfolding preamble
preamble_cases P action state false config rest unconfirmed unlinked open_ = unconfirmed refl
preamble_cases P action state true config rest unconfirmed unlinked open_ =
    elim (Bool-cases (is_fresh state config)) [
      | inl fresh ↦ rw (fresh, preamble) (open_ (is_fresh-GatesOpen state config fresh))
      | inr old ↦ rw (old, preamble) (unlinked refl old)
    ]

-- The part of each guard behind the gates.
unfoldable pub own_checks : Command → VehicleState → GuardConfig → List GuardCheck → GuardDecision
own_checks arm state config checks = arm_checks state config checks
own_checks land state config checks = land_checks state checks
own_checks rtl state config checks = rtl_checks state checks
own_checks mission_clear state config checks = clear_checks state config checks
own_checks (disarm force) state config checks = disarm_checks state force config checks
own_checks (mode name available) state config checks =
    mode_checks state (upper name) available checks
own_checks (takeoff altitude) state config checks = takeoff_checks state altitude config checks
own_checks (mission_upload mission) state config checks = upload_checks state mission config checks
own_checks (mission_start count) state config checks = start_checks state count checks

pub check_eq :
    (c : Command) (state : VehicleState) (confirmed : Bool) (config : GuardConfig)
    → check c state confirmed config ≡ (
        let (terminal, checks) = preamble (action_of c) state confirmed config in
        return_or terminal (own_checks c state config checks))
unfolding check own_checks action_of check_arm check_disarm check_mode check_takeoff check_land
    check_rtl check_mission_upload check_mission_clear check_mission_start
check_eq arm state confirmed config = refl
check_eq c state confirmed config = refl

-- The three answers of a guard, for any command.
pub check_cases {ℓ} :
    (P : GuardDecision → Type ℓ) (c : Command) (state : VehicleState) (confirmed : Bool)
    (config : GuardConfig)
    → (confirmed ≡ false
        → P (reject (action_of c) confirmation_required [] confirm safety_rejected))
    → (confirmed ≡ true
        → is_fresh state config ≡ false
        → P (
            reject (action_of c) not_connected (pass confirm ∷ []) connected vehicle_not_connected))
    → (GatesOpen state confirmed config → P (own_checks c state config gate_checks))
    → P (check c state confirmed config)
check_cases P c state confirmed config unconfirmed unlinked behind =
    rw (check_eq c state confirmed config) (
      preamble_cases P (action_of c) state confirmed config (own_checks c state config) unconfirmed
        unlinked behind)
