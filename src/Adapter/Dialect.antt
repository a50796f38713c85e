-- ===== src/Adapter/Dialect.antt =====
-- The messages that fill the snapshot (src/mavctl/adapter/pymavlink_adapter.py), and what their
-- reading takes from pymavlink and from Python's `math`.
use mavctl.Prelude.{
  ℕ, zero, suc, ◌*◌, ◌/◌, ◌%◌, Bool, Option, none, some, List, [], ◌∷◌, String, Float, finite, ℤ,
  scale, ◌==◌, if◌then◌else◌,
}
use mavctl.Models.Health.{Variances}

-- Constants of the dialect, the texts of f-strings that end in a number, and `math`.
pub record Dialect : Type 0 where
  -- `MAV_COMP_ID_AUTOPILOT1`
  pub autopilot : ℕ
  -- `MAV_MODE_FLAG_SAFETY_ARMED`, a power of two
  pub safety_armed : ℕ
  -- `_EKF_FLAG_NAMES`
  pub ekf_flag_name : ℕ → Option String
  -- `f"{prefix}{n}"`
  pub numbered : String → ℕ → String
  -- `f"mode({n})"`
  pub mode_text : ℕ → String
  pub degrees : Float → Float
  pub hypot : Float → Float → Float

-- A message, with the fields that its handler reads. The flight mode of a heartbeat is what
-- pymavlink makes of it, if it is a text; the text of a `STATUSTEXT` is there if it is a text.
pub data MavMessage : Type 0 where
  heartbeat : Option String → ℕ → ℕ → ℕ → MavMessage
  sys_status : ℕ → ℤ → ℤ → ℕ → ℕ → ℕ → MavMessage
  global_position_int : ℤ → ℤ → ℤ → ℤ → ℤ → ℤ → ℤ → ℕ → MavMessage
  attitude : Float → Float → Float → MavMessage
  gps_raw_int : ℕ → ℕ → MavMessage
  extended_sys_state : ℕ → MavMessage
  mission_current : ℕ → ℕ → ℕ → ℕ → MavMessage
  ekf_status_report : ℕ → Variances → MavMessage
  statustext : Option String → ℕ → ℕ → ℕ → MavMessage
  home_position : ℤ → ℤ → ℤ → MavMessage

-- `_GPS_FIX_LABELS`
unfoldable pub gps_fix_label : ℕ → Option String
gps_fix_label n =
    if n == 0
    then some "no_gps"
    else if n == 1
    then some "no_fix"
    else if n == 2
    then some "2d_fix"
    else if n == 3
    then some "3d_fix"
    else if n == 4
    then some "dgps"
    else if n == 5
    then some "rtk_float"
    else if n == 6
    then some "rtk_fixed"
    else if n == 7
    then some "static"
    else if n == 8
    then some "ppp"
    else none

-- `_MAV_STATE_LABELS`
unfoldable pub mav_state_label : ℕ → Option String
mav_state_label n =
    if n == 0
    then some "uninit"
    else if n == 1
    then some "boot"
    else if n == 2
    then some "calibrating"
    else if n == 3
    then some "standby"
    else if n == 4
    then some "active"
    else if n == 5
    then some "critical"
    else if n == 6
    then some "emergency"
    else if n == 7
    then some "poweroff"
    else if n == 8
    then some "flight_termination"
    else none

-- `_LANDED_STATE_LABELS`
unfoldable pub landed_state_label : ℕ → Option String
landed_state_label n =
    if n == 0
    then some "undefined"
    else if n == 1
    then some "on_ground"
    else if n == 2
    then some "in_air"
    else if n == 3
    then some "takeoff"
    else if n == 4
    then some "landing"
    else none

-- `_MISSION_STATE_LABELS`
unfoldable pub mission_state_label : ℕ → Option String
mission_state_label n =
    if n == 0
    then some "unknown"
    else if n == 1
    then some "no_mission"
    else if n == 2
    then some "not_started"
    else if n == 3
    then some "active"
    else if n == 4
    then some "paused"
    else if n == 5
    then some "complete"
    else none

-- `_UINT16_MAX`
abbrev pub uint16_max : ℕ
uint16_max = 65535

-- `n / 100.0` and `n / 1000.0`
unfoldable pub of_hundredths : ℤ → Float
of_hundredths n = finite (scale n 10000000)

unfoldable pub of_thousandths : ℤ → Float
of_thousandths n = finite (scale n 1000000)

-- Whether the bit of the power of two is set.
abbrev pub has_bit : ℕ → ℕ → Bool
has_bit mask power = mask / power % 2 == 1

-- `_decode_ekf_flags`, from the bit of `power` on, `bits` of them
unfoldable pub decode_bits : Dialect → ℕ → ℕ → ℕ → List String
decode_bits dialect zero power mask = []
decode_bits dialect (suc bits) power mask =
    let rest = decode_bits dialect bits (power * 2) mask in
    if has_bit mask power
    then (elim (dialect.ekf_flag_name power) [ none ↦ rest | some name ↦ name ∷ rest ])
    else rest

-- `_decode_ekf_flags`
unfoldable pub decode_ekf_flags : Dialect → ℕ → List String
unfolding decode_bits
decode_ekf_flags dialect mask = decode_bits dialect 16 1 mask
