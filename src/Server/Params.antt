-- ===== src/Server/Params.antt =====
-- The parameters of a request: JSON values, `_flag` and `_wait_timeout` of
-- src/mavctl/daemon/server.py, and `RpcRequest` of src/mavctl/models/protocol.py.
use mavctl.Prelude.{
  ℕ, Bool, true, false, not, ◌||◌, Option, none, some, List, [], ◌∷◌, String, str_eq, Float,
  zero_float, seconds, float_eq, float_le, is_finite, if◌then◌else◌, ◌>>=◌,
}
use mavctl.Models.Mission.{MissionV1}
use mavctl.Missions.Schema.{validate_mission}

-- A JSON value. Of an array or an object only whether it is empty matters here, and the tag that
-- tells values apart.
pub data Json : Type 0 where
  null : Json
  boolean : Bool → Json
  number : Float → Json
  text : String → Json
  array object : Bool → ℕ → Json

abbrev pub Params : Type 0
Params = List (String × Json)

pub record RpcRequest : Type 0 where
  pub method : String
  pub params : Params

-- `params.get(key)`
unfoldable pub get_param : String → Params → Option Json
get_param key [] = none
get_param key ((k, value) ∷ rest) = if str_eq k key then some value else get_param key rest

-- `bool(value)`
unfoldable pub is_truthy : Json → Bool
is_truthy null = false
is_truthy (boolean b) = b
is_truthy (number a) = not (float_eq a zero_float)
is_truthy (text s) = not (str_eq s "")
is_truthy (array is_empty tag) = not is_empty
is_truthy (object is_empty tag) = not is_empty

abbrev truthy_or_absent : Option Json → Bool
truthy_or_absent none = false
truthy_or_absent (some value) = is_truthy value

-- `_flag`
unfoldable pub flag : String → Params → Bool
unfolding is_truthy get_param
flag key params = truthy_or_absent (get_param key params)

-- `_DEFAULT_WAIT_TIMEOUT`
abbrev pub default_wait_timeout : Float
default_wait_timeout = seconds 60

-- `_wait_timeout` of the value; `none` is its `ValueError`.
unfoldable pub timeout_of : Option Json → Option Float
timeout_of none = some default_wait_timeout
timeout_of (some null) = some default_wait_timeout
timeout_of (some (number a)) = if not (is_finite a) || float_le a zero_float then none else some a
timeout_of (some _) = none

-- `_wait_timeout`
unfoldable pub wait_timeout : Params → Option Float
unfolding timeout_of get_param
wait_timeout params = timeout_of (get_param "timeout" params)

-- What Python and pydantic do with a value: `str(value)`, `float(text)` with `none` for its
-- `ValueError`, and the fields of a mission in a JSON value whose types fit.
pub record Readers : Type 0 where
  pub text_of : Json → String
  pub float_of : String → Option Float
  pub mission_of : Json → Option MissionV1

module _ (py : Readers) where
  abbrev float_param : Option Json → Option Float
  float_param (some (boolean true)) = some (seconds 1)
  float_param (some (boolean false)) = some zero_float
  float_param (some (number a)) = some a
  float_param (some (text s)) = py.float_of s
  float_param _ = none

  -- The altitude of a takeoff: `float(alt)`, if it is there and finite.
  unfoldable pub read_altitude : Params → Option Float
  unfolding get_param
  read_altitude params = do
    a ← float_param (get_param "alt" params)
    if is_finite a then some a else none

  abbrev validated_mission : MissionV1 → Option MissionV1
  unfolding validate_mission
  validated_mission mission = if validate_mission mission then some mission else none

  -- `_parse_mission` of `p.get("mission")`
  unfoldable pub parse_mission : Params → Option MissionV1
  unfolding get_param validated_mission
  parse_mission params = do
    raw ← get_param "mission" params
    mission ← py.mission_of raw
    validated_mission mission

  abbrev text_param : Option Json → String
  text_param none = ""
  text_param (some value) = py.text_of value

  -- `str(p.get("mode", ""))`
  unfoldable pub read_mode : Params → String
  unfolding get_param
  read_mode params = text_param (get_param "mode" params)
