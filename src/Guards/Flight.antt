-- ===== src/Guards/Flight.antt =====
-- The guards of flight commands: `check_arm`, `check_disarm`, `check_mode`, `check_takeoff`,
-- `check_land` and `check_rtl` of src/mavctl/daemon/guards.py.
use mathlib.Core.Option.{get_or}
use mavctl.Prelude.{
  Bool, true, false, not, List, [], ◌∷◌, ◌++◌, ◌||◌, if◌then◌else◌, ltb, Float, String, str_eq,
  zero_float, float_le, float_lt, is_finite, is_text, is_true, is_false, upper,
}
use mavctl.Models.Protocol.{safety_rejected, usage_error}
use mavctl.Models.State.{VehicleState}
use mavctl.Guards.Decision.{
  GuardConfig, GuardCheck, GuardDecision, arm, disarm, mode, takeoff, land, rtl, pass, reject,
  allow, satisfied, preamble, return_or, gps_not_ready, in_flight, ground_state_stale,
  ground_state_unknown, altitude_limit, invalid_altitude, mode_map_unavailable, unknown_mode,
  wrong_mode, not_armed, already_armed, already_disarmed, gps_fix, on_ground, ground_fresh,
  ground_known, alt_limit, armed, already_in_mode, mode_known, alt_positive, mode_guided,
  already_landed, already_home,
}
use mavctl.Guards.Ground.{GroundState, airborne, grounded, stale, unknown, classify_ground_state}

-- The part of `check_arm` after the shared gates.
unfoldable pub arm_checks : VehicleState → GuardConfig → List GuardCheck → GuardDecision
unfolding reject pass allow satisfied
arm_checks state config checks =
    if is_true state.armed
    then satisfied arm checks already_armed
    else if ltb (get_or state.gps.fix_type 0) config.min_gps_fix_type
    then reject arm gps_not_ready checks gps_fix safety_rejected
    else allow arm (checks ++ pass gps_fix ∷ [])

unfoldable pub check_arm : VehicleState → Bool → GuardConfig → GuardDecision
unfolding arm_checks preamble
check_arm state confirm config =
    let (terminal, checks) = preamble arm state confirm config in
    return_or terminal (arm_checks state config checks)

-- The end of `check_disarm`: the answer for each classification of the ground evidence.
unfoldable pub disarm_on : GroundState → List GuardCheck → GuardDecision
unfolding reject pass allow
disarm_on airborne checks = reject disarm in_flight checks on_ground safety_rejected
disarm_on stale checks = reject disarm ground_state_stale checks ground_fresh safety_rejected
disarm_on unknown checks = reject disarm ground_state_unknown checks ground_known safety_rejected
disarm_on grounded checks = allow disarm (checks ++ pass ground_known ∷ [])

unfoldable pub disarm_checks : VehicleState → Bool → GuardConfig → List GuardCheck → GuardDecision
unfolding disarm_on pass allow satisfied
disarm_checks state force config checks =
    if is_false state.armed
    then satisfied disarm checks already_disarmed
    else if force
    then allow disarm (checks ++ pass on_ground ∷ [])
    else disarm_on (classify_ground_state state config) checks

unfoldable pub check_disarm : VehicleState → Bool → Bool → GuardConfig → GuardDecision
unfolding disarm_checks preamble
check_disarm state confirm force config =
    let (terminal, checks) = preamble disarm state confirm config in
    return_or terminal (disarm_checks state force config checks)

-- `target in available`
unfoldable pub contains : List String → String → Bool
contains [] target = false
contains (name ∷ rest) target = str_eq name target || contains rest target

-- `not available`, for a list
abbrev pub is_empty : List String → Bool
is_empty [] = true
is_empty (_ ∷ _) = false

unfoldable pub mode_checks : VehicleState → String → List String → List GuardCheck → GuardDecision
unfolding reject pass allow satisfied
mode_checks state target available checks =
    if is_text state.flight_mode target
    then satisfied mode checks already_in_mode
    else if is_empty available
    then reject mode mode_map_unavailable checks mode_known safety_rejected
    else if not (contains available target)
    then reject mode unknown_mode checks mode_known usage_error
    else allow mode (checks ++ pass mode_known ∷ [])

unfoldable pub check_mode : VehicleState → String → List String → Bool → GuardConfig → GuardDecision
unfolding mode_checks preamble
check_mode state name available confirm config =
    let (terminal, checks) = preamble mode state confirm config in
    return_or terminal (mode_checks state (upper name) available checks)

unfoldable pub takeoff_armed : VehicleState → List GuardCheck → GuardDecision
unfolding reject pass allow
takeoff_armed state checks =
    if not (is_true state.armed)
    then reject takeoff not_armed checks armed safety_rejected
    else allow takeoff (checks ++ pass armed ∷ [])

unfoldable pub takeoff_mode : VehicleState → List GuardCheck → GuardDecision
unfolding takeoff_armed reject pass
takeoff_mode state checks =
    if not (is_text state.flight_mode "GUIDED")
    then reject takeoff wrong_mode checks mode_guided safety_rejected
    else takeoff_armed state (checks ++ pass mode_guided ∷ [])

unfoldable pub takeoff_limit : VehicleState → Float → GuardConfig → List GuardCheck → GuardDecision
unfolding takeoff_mode reject pass
takeoff_limit state altitude config checks =
    if float_lt config.max_takeoff_alt_m altitude
    then reject takeoff altitude_limit checks alt_limit safety_rejected
    else takeoff_mode state (checks ++ pass alt_limit ∷ [])

unfoldable pub takeoff_checks : VehicleState → Float → GuardConfig → List GuardCheck → GuardDecision
unfolding takeoff_limit reject pass
takeoff_checks state altitude config checks =
    if not (is_finite altitude) || float_le altitude zero_float
    then reject takeoff invalid_altitude checks alt_positive usage_error
    else takeoff_limit state altitude config (checks ++ pass alt_positive ∷ [])

unfoldable pub check_takeoff : VehicleState → Float → Bool → GuardConfig → GuardDecision
unfolding takeoff_checks preamble
check_takeoff state altitude confirm config =
    let (terminal, checks) = preamble takeoff state confirm config in
    return_or terminal (takeoff_checks state altitude config checks)

-- `state.armed is False or state.landed_state == "on_ground"`
unfoldable pub is_down : VehicleState → Bool
is_down state = is_false state.armed || is_text state.landed_state "on_ground"

unfoldable pub land_checks : VehicleState → List GuardCheck → GuardDecision
unfolding is_down allow satisfied
land_checks state checks =
    if is_down state then satisfied land checks already_landed else allow land checks

unfoldable pub check_land : VehicleState → Bool → GuardConfig → GuardDecision
unfolding land_checks preamble
check_land state confirm config =
    let (terminal, checks) = preamble land state confirm config in
    return_or terminal (land_checks state checks)

unfoldable pub rtl_checks : VehicleState → List GuardCheck → GuardDecision
unfolding is_down allow satisfied
rtl_checks state checks =
    if is_down state then satisfied rtl checks already_home else allow rtl checks

unfoldable pub check_rtl : VehicleState → Bool → GuardConfig → GuardDecision
unfolding rtl_checks preamble
check_rtl state confirm config =
    let (terminal, checks) = preamble rtl state confirm config in
    return_or terminal (rtl_checks state checks)
