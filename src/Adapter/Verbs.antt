-- ===== src/Adapter/Verbs.antt =====
-- The verbs of src/mavctl/adapter/pymavlink_adapter.py that send a command: `arm`, `disarm`,
-- `set_mode`, `takeoff`, `land`, `rtl` and `start_mission`, and the `COMMAND_LONG` frames that
-- `_send_command` sends for them.
use mavctl.Prelude.{
  ℕ, Bool, Option, none, some, List, [], ◌∷◌, ◌++◌, map, take, String, Float, seconds, zero_float,
  upper, if◌then◌else◌,
}
use mavctl.Adapter.Exchange.{Plan, Exchange}

pub data Verb : Type 0 where
  arm land rtl start_mission : Verb
  disarm : Bool → Verb
  set_mode : String → Verb
  takeoff : Float → Verb

-- Numbers of the dialect: the commands' ids and `MAV_MODE_FLAG_CUSTOM_MODE_ENABLED`.
pub record Codes : Type 0 where
  pub component_arm_disarm : ℕ
  pub do_set_mode : ℕ
  pub nav_takeoff : ℕ
  pub nav_land : ℕ
  pub nav_return_to_launch : ℕ
  pub custom_mode_enabled : ℕ

-- `float(n)`
abbrev pub float_of : ℕ → Float
float_of = seconds

-- `_MAV_CMD_MISSION_START`
abbrev pub mav_cmd_mission_start : ℕ
mav_cmd_mission_start = 300

-- `_FORCE_ARM_MAGIC`
abbrev pub force_arm_magic : Float
force_arm_magic = float_of 21196

-- `set_mode` with the entry of the mode mapping; `none` is `ModeMappingUnavailableError`.
abbrev pub mode_command : Codes → Option ℕ → Option (ℕ × List Float)
mode_command codes none = none
mode_command codes (some number) =
    some (codes.do_set_mode, float_of codes.custom_mode_enabled ∷ float_of number ∷ [])

-- The command and the parameters with which a verb calls `_send_command`; `modes` is the mode
-- mapping.
unfoldable pub command_of : Codes → (String → Option ℕ) → Verb → Option (ℕ × List Float)
unfolding upper
command_of codes modes arm = some (codes.component_arm_disarm, float_of 1 ∷ zero_float ∷ [])
command_of codes modes (disarm force) =
    some (
      codes.component_arm_disarm,
      zero_float ∷ (if force then force_arm_magic else zero_float) ∷ [],
    )
command_of codes modes (set_mode mode) = mode_command codes (modes (upper mode))
command_of codes modes (takeoff altitude_m) = some (
  codes.nav_takeoff,
  zero_float ∷ zero_float ∷ zero_float ∷ zero_float ∷ zero_float ∷ zero_float ∷ altitude_m ∷ [],
)
command_of codes modes land = some (codes.nav_land, [])
command_of codes modes rtl = some (codes.nav_return_to_launch, [])
command_of codes modes start_mission = some (mav_cmd_mission_start, [])

-- `(params + [0.0] * 7)[:7]`
unfoldable pub padded : List Float → List Float
padded params = take 7 (
    params
    ++ zero_float ∷ zero_float ∷ zero_float ∷ zero_float ∷ zero_float ∷ zero_float ∷ zero_float
      ∷ [])

-- The arguments of `command_long_send`.
pub record CommandLong : Type 0 where
  pub target_system : ℕ
  pub target_component : ℕ
  pub command : ℕ
  pub confirmation : ℕ
  pub params : List Float

unfoldable pub frame : Plan → List Float → ℕ → CommandLong
unfolding padded
frame p params confirmation = record {
  target_system = p.target.target_system;
  target_component = p.target.target_component;
  command = p.command;
  confirmation = confirmation;
  params = padded params;
}

-- What an exchange has sent so far.
unfoldable pub frames : Plan → List Float → Exchange → List CommandLong
unfolding frame
frames p params x = map (frame p params) x.sent
