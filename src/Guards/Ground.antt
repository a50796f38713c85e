-- ===== src/Guards/Ground.antt =====
-- Ground and air evidence: `_is_fresh_age`, `_classify_ground_state` and
-- `_reject_unless_grounded` of src/mavctl/daemon/guards.py.
use mavctl.Prelude.{
  Bool, false, not, Option, none, some, List, ◌&&◌, ◌||◌, if◌then◌else◌, Float, zero_float,
  float_le, float_lt, is_finite, is_text,
}
use mavctl.Models.Protocol.{safety_rejected}
use mavctl.Models.State.{VehicleState}
use mavctl.Guards.Decision.{
  GuardConfig, GuardCheck, GuardDecision, Action, reject, in_flight, ground_state_stale,
  ground_state_unknown, on_ground, ground_fresh, ground_known,
}

-- The answers of `_classify_ground_state`.
pub data GroundState : Type 0 where
  airborne grounded stale unknown : GroundState

-- `_is_fresh_age`
unfoldable pub is_fresh_age : Option Float → Float → Bool
is_fresh_age none limit_s = false
is_fresh_age (some age_s) limit_s =
    if not (is_finite age_s) || float_lt age_s zero_float then false else float_le age_s limit_s

-- `state.relative_alt_m is not None and state.relative_alt_m > limit`
unfoldable pub is_above : Option Float → Float → Bool
is_above none limit = false
is_above (some altitude) limit = float_lt limit altitude

-- `state.relative_alt_m is not None and state.relative_alt_m <= limit`
unfoldable pub is_at_most : Option Float → Float → Bool
is_at_most none limit = false
is_at_most (some altitude) limit = float_le altitude limit

-- `_classify_ground_state`
unfoldable pub classify_ground_state : VehicleState → GuardConfig → GroundState
classify_ground_state state config =
    let landed_reported = is_text state.landed_state "on_ground" in
    let landed_fresh = is_fresh_age state.landed_state_age_s config.max_ground_evidence_age_s in
    let low_known_alt = is_at_most state.relative_alt_m config.max_on_ground_alt_m in
    let telemetry_fresh = is_fresh_age state.telemetry_age_s config.max_ground_evidence_age_s in
    if is_text state.landed_state "in_air"
      || is_above state.relative_alt_m config.airborne_alt_threshold_m
    then airborne
    else if (landed_reported && landed_fresh) || (low_known_alt && telemetry_fresh)
    then grounded
    else if landed_reported || low_known_alt
    then stale
    else unknown

-- The rejection for a classification; `none` lets the guard go on.
unfoldable pub reject_ground_state : GroundState → Action → List GuardCheck → Option GuardDecision
unfolding reject
reject_ground_state grounded action checks = none
reject_ground_state airborne action checks =
    some (reject action in_flight checks on_ground safety_rejected)
reject_ground_state stale action checks =
    some (reject action ground_state_stale checks ground_fresh safety_rejected)
reject_ground_state unknown action checks =
    some (reject action ground_state_unknown checks ground_known safety_rejected)

-- `_reject_unless_grounded`
unfoldable pub reject_unless_grounded :
    Action → VehicleState → GuardConfig → List GuardCheck → Option GuardDecision
unfolding reject_ground_state
reject_unless_grounded action state config checks =
    reject_ground_state (classify_ground_state state config) action checks
