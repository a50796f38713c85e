-- ===== src/Guards/Decision.antt =====
-- Guard decisions and the gates that every guard shares: `GuardConfig`, `GuardCheck`,
-- `GuardDecision`, `_reject` and `_preamble` of src/mavctl/daemon/guards.py. The texts meant for
-- people (`message`, `hint`, `detail`) are left out; the machine-readable fields are kept.
use mavctl.Prelude.{
  ℕ, Bool, true, false, Option, none, some, List, [], ◌∷◌, ◌++◌, ◌&&◌, if◌then◌else◌, Float,
  seconds, metres, thousandths, float_le,
}
use mavctl.Models.Protocol.{ExitCode, success, vehicle_not_connected, safety_rejected}
use mavctl.Models.State.{VehicleState}

pub record GuardConfig : Type 0 where
  pub max_takeoff_alt_m : Float
  pub min_gps_fix_type : ℕ
  pub airborne_alt_threshold_m : Float
  pub max_on_ground_alt_m : Float
  pub max_heartbeat_age_s : Float
  pub max_ground_evidence_age_s : Float

-- The defaults of the configuration.
abbrev pub default_config : GuardConfig
default_config = record {
  max_takeoff_alt_m = metres 120;
  min_gps_fix_type = 3;
  airborne_alt_threshold_m = metres 1;
  max_on_ground_alt_m = thousandths 500;
  max_heartbeat_age_s = seconds 3;
  max_ground_evidence_age_s = seconds 3;
}

-- `action` of a decision, a literal of the source.
pub data Action : Type 0 where
  arm disarm mission_upload mission_clear mission_start mode takeoff land rtl : Action

-- `reason` of a rejection, a literal of the source.
pub data Reason : Type 0 where
  confirmation_required not_connected gps_not_ready in_flight ground_state_stale
        ground_state_unknown mission_requires_disarmed mission_requires_armed mission_absent
        altitude_limit invalid_altitude mode_map_unavailable unknown_mode wrong_mode not_armed :
      Reason

-- `name` of a check, a literal of the source.
pub data CheckName : Type 0 where
  confirm connected already_armed already_disarmed gps_fix on_ground ground_fresh ground_known
        disarmed alt_limit mission_limits mission_clear_checks mission_present armed already_running
        mission_start_checks already_in_mode mode_known alt_positive mode_guided already_landed
        already_home :
      CheckName

pub record GuardCheck : Type 0 where
  pub name : CheckName
  pub passed : Bool

pub record GuardDecision : Type 0 where
  pub allowed : Bool
  pub action : Action
  pub checks : List GuardCheck
  pub reason : Option Reason
  pub exit_code : ExitCode
  pub already_satisfied : Bool

-- `_passed`
unfoldable pub pass : CheckName → GuardCheck
pass name = record { name = name; passed = true }

unfoldable pub failed : CheckName → GuardCheck
failed name = record { name = name; passed = false }

-- `_reject`, with its default exit code written out by the callers.
unfoldable pub reject : Action → Reason → List GuardCheck → CheckName → ExitCode → GuardDecision
unfolding failed
reject action reason checks failed_check exit_code = record {
  allowed = false;
  action = action;
  checks = checks ++ failed failed_check ∷ [];
  reason = some reason;
  exit_code = exit_code;
  already_satisfied = false;
}

-- `GuardDecision(allowed=True, …)`
unfoldable pub allow : Action → List GuardCheck → GuardDecision
allow action checks = record {
  allowed = true;
  action = action;
  checks = checks;
  reason = none;
  exit_code = success;
  already_satisfied = false;
}

-- The idempotent case: `GuardDecision(allowed=True, …, already_satisfied=True)`.
unfoldable pub satisfied : Action → List GuardCheck → CheckName → GuardDecision
unfolding pass
satisfied action checks name = record {
  allowed = true;
  action = action;
  checks = checks ++ pass name ∷ [];
  reason = none;
  exit_code = success;
  already_satisfied = true;
}

-- `age is not None and age <= limit`
unfoldable pub not_older : Option Float → Float → Bool
not_older none limit = false
not_older (some age) limit = float_le age limit

-- The second gate of `_preamble`.
unfoldable pub is_fresh : VehicleState → GuardConfig → Bool
unfolding not_older
is_fresh state config =
    state.connected && not_older state.heartbeat_age_s config.max_heartbeat_age_s

-- `_preamble`: the decision that ends the guard, or none, and the checks passed so far.
unfoldable pub preamble :
    Action → VehicleState → Bool → GuardConfig → Option GuardDecision × List GuardCheck
unfolding reject pass is_fresh
preamble action state confirmed config =
    if confirmed
    then (let checks : List GuardCheck = pass confirm ∷ [] in
        if is_fresh state config
        then (none, checks ++ pass connected ∷ [])
        else (some (reject action not_connected checks connected vehicle_not_connected), checks))
    else (some (reject action confirmation_required [] confirm safety_rejected), [])

-- `if terminal is not None: return terminal`
abbrev pub return_or : Option GuardDecision → GuardDecision → GuardDecision
return_or (some terminal) rest = terminal
return_or none rest = rest
