-- ===== src/Guards/Mission.antt =====
-- The guards of mission commands: `check_mission_upload`, `check_mission_clear` and
-- `check_mission_start` of src/mavctl/daemon/guards.py.
use mavctl.Prelude.{
  ℕ, Bool, true, false, not, List, [], ◌∷◌, ◌++◌, ◌&&◌, if◌then◌else◌, leb, Float, is_text, is_true,
  is_false,
}
use mavctl.Models.Protocol.{safety_rejected}
use mavctl.Models.State.{VehicleState}
use mavctl.Models.Mission.{MissionItem, MissionV1, altitude_m}
use mavctl.Guards.Decision.{
  GuardConfig, GuardCheck, GuardDecision, mission_upload, mission_clear, mission_start, pass,
  reject, allow, satisfied, preamble, return_or, mission_requires_disarmed, mission_requires_armed,
  mission_absent, altitude_limit, disarmed, alt_limit, mission_limits, mission_clear_checks,
  mission_present, armed, already_running, mission_start_checks,
}
use mavctl.Guards.Ground.{is_above, reject_unless_grounded}

-- The loop over the items: whether some item is above the altitude limit.
unfoldable pub exceeds_limit : Float → List MissionItem → Bool
unfolding is_above altitude_m
exceeds_limit limit [] = false
exceeds_limit limit (item ∷ rest) =
    if is_above (altitude_m item) limit then true else exceeds_limit limit rest

unfoldable pub upload_limits : MissionV1 → GuardConfig → List GuardCheck → GuardDecision
unfolding reject pass allow
upload_limits mission config checks =
    if exceeds_limit config.max_takeoff_alt_m mission.items
    then reject mission_upload altitude_limit checks alt_limit safety_rejected
    else allow mission_upload (checks ++ pass mission_limits ∷ [])

unfoldable pub upload_checks :
    VehicleState → MissionV1 → GuardConfig → List GuardCheck → GuardDecision
unfolding upload_limits reject
upload_checks state mission config checks =
    if not (is_false state.armed)
    then reject mission_upload mission_requires_disarmed checks disarmed safety_rejected
    else return_or (reject_unless_grounded mission_upload state config checks)
        (upload_limits mission config checks)

unfoldable pub check_mission_upload : VehicleState → MissionV1 → Bool → GuardConfig → GuardDecision
unfolding upload_checks preamble
check_mission_upload state mission confirm config =
    let (terminal, checks) = preamble mission_upload state confirm config in
    return_or terminal (upload_checks state mission config checks)

unfoldable pub clear_checks : VehicleState → GuardConfig → List GuardCheck → GuardDecision
unfolding reject pass allow
clear_checks state config checks =
    if not (is_false state.armed)
    then reject mission_clear mission_requires_disarmed checks disarmed safety_rejected
    else return_or (reject_unless_grounded mission_clear state config checks)
        (allow mission_clear (checks ++ pass mission_clear_checks ∷ []))

unfoldable pub check_mission_clear : VehicleState → Bool → GuardConfig → GuardDecision
unfolding clear_checks preamble
check_mission_clear state confirm config =
    let (terminal, checks) = preamble mission_clear state confirm config in
    return_or terminal (clear_checks state config checks)

-- AUTO with an active mission. The field `mission` is never `None` in a `VehicleState`.
unfoldable pub is_running : VehicleState → Bool
is_running state = is_text state.flight_mode "AUTO" && is_text state.mission.state "active"

unfoldable pub start_checks : VehicleState → ℕ → List GuardCheck → GuardDecision
unfolding is_running reject pass allow satisfied
start_checks state mission_count checks =
    if leb mission_count 1
    then reject mission_start mission_absent checks mission_present safety_rejected
    else if not (is_true state.armed)
    then reject mission_start mission_requires_armed checks armed safety_rejected
    else if is_running state
    then satisfied mission_start checks already_running
    else allow mission_start (checks ++ pass mission_start_checks ∷ [])

unfoldable pub check_mission_start : VehicleState → ℕ → Bool → GuardConfig → GuardDecision
unfolding start_checks preamble
check_mission_start state mission_count confirm config =
    let (terminal, checks) = preamble mission_start state confirm config in
    return_or terminal (start_checks state mission_count checks)
