-- ===== src/Missions/Wire.antt =====
-- The pure mapping between mission items and `MISSION_ITEM_INT` fields
-- (src/mavctl/models/mission.py).
use mavctl.Prelude.{
  ◌>>=◌, ℕ, Bool, not, ◌&&◌, ◌||◌, Option, none, some, Float, zero_float, float_eq, if◌then◌else◌,
  ◌==◌, ℤ, pos, abs, round_e7, of_e7,
}
use mavctl.Models.Mission.{MissionItem, takeoff, waypoint, land, rtl}
use mavctl.Missions.Schema.{validated}

-- The MAVLink constants of the source.
abbrev pub command_waypoint : ℕ
command_waypoint = 16

abbrev pub command_return_to_launch : ℕ
command_return_to_launch = 20

abbrev pub command_land : ℕ
command_land = 21

abbrev pub command_takeoff : ℕ
command_takeoff = 22

abbrev pub frame_global : ℕ
frame_global = 0

abbrev pub frame_global_relative_alt : ℕ
frame_global_relative_alt = 3

abbrev pub frame_global_relative_alt_int : ℕ
frame_global_relative_alt_int = 6

-- `MissionItemIntFields`
pub record MissionItemIntFields : Type 0 where
  pub command : ℕ
  pub param1 : Float
  pub param2 : Float
  pub param3 : Float
  pub param4 : Float
  pub x : ℤ
  pub y : ℤ
  pub z : Float
  pub frame : ℕ

-- `mission_item_to_int_fields`; `none` is the exception of `round` on NaN or an infinity.
unfoldable pub mission_item_to_int_fields : MissionItem → Option MissionItemIntFields
mission_item_to_int_fields (takeoff altitude_m) = some (record {
  command = command_takeoff;
  param1 = zero_float;
  param2 = zero_float;
  param3 = zero_float;
  param4 = zero_float;
  x = pos 0;
  y = pos 0;
  z = altitude_m;
  frame = frame_global_relative_alt_int;
})
mission_item_to_int_fields (waypoint lat_deg lon_deg altitude_m hold_s accept_radius_m) = do
  x ← round_e7 lat_deg
  y ← round_e7 lon_deg
  some (record {
    command = command_waypoint;
    param1 = hold_s;
    param2 = accept_radius_m;
    param3 = zero_float;
    param4 = zero_float;
    x = x;
    y = y;
    z = altitude_m;
    frame = frame_global_relative_alt_int;
  })
mission_item_to_int_fields (land lat_deg lon_deg altitude_m abort_alt_m) = do
  x ← round_e7 lat_deg
  y ← round_e7 lon_deg
  some (record {
    command = command_land;
    param1 = abort_alt_m;
    param2 = zero_float;
    param3 = zero_float;
    param4 = zero_float;
    x = x;
    y = y;
    z = altitude_m;
    frame = frame_global_relative_alt_int;
  })
mission_item_to_int_fields rtl = some (record {
  command = command_return_to_launch;
  param1 = zero_float;
  param2 = zero_float;
  param3 = zero_float;
  param4 = zero_float;
  x = pos 0;
  y = pos 0;
  z = zero_float;
  frame = frame_global_relative_alt_int;
})

-- `home_slot_int_fields`
unfoldable pub home_slot_int_fields : MissionItemIntFields
home_slot_int_fields = record {
  command = command_waypoint;
  param1 = zero_float;
  param2 = zero_float;
  param3 = zero_float;
  param4 = zero_float;
  x = pos 0;
  y = pos 0;
  z = zero_float;
  frame = frame_global_relative_alt_int;
}

abbrev pub is_zero : Float → Bool
is_zero a = float_eq a zero_float

abbrev pub is_zero_ℤ : ℤ → Bool
is_zero_ℤ a = abs a == 0

-- The test on the frame.
unfoldable pub is_frame_supported : ℕ → ℕ → Bool
is_frame_supported command frame =
    frame == frame_global_relative_alt
    || frame == frame_global_relative_alt_int
    || (command == command_return_to_launch && frame == frame_global)

unfoldable pub are_params_zero : MissionItemIntFields → Bool
are_params_zero r = is_zero r.param1 && is_zero r.param2 && is_zero r.param3 && is_zero r.param4

-- The branches of `mission_item_from_remote`, one for each command.
unfoldable pub takeoff_from_remote : MissionItemIntFields → Option MissionItem
unfolding are_params_zero validated
takeoff_from_remote r =
    if not (are_params_zero r)
    then none
    else if not (is_zero_ℤ r.x) || not (is_zero_ℤ r.y)
    then none
    else validated (takeoff r.z)

unfoldable pub waypoint_from_remote : MissionItemIntFields → Option MissionItem
unfolding validated
waypoint_from_remote r =
    if not (is_zero r.param3)
    then none
    else if not (is_zero r.param4)
    then none
    else validated (waypoint (of_e7 r.x) (of_e7 r.y) r.z r.param1 r.param2)

unfoldable pub land_from_remote : MissionItemIntFields → Option MissionItem
unfolding validated
land_from_remote r =
    if not (is_zero r.param2)
    then none
    else if not (is_zero r.param3)
    then none
    else if not (is_zero r.param4)
    then none
    else validated (land (of_e7 r.x) (of_e7 r.y) r.z r.param1)

unfoldable pub rtl_from_remote : MissionItemIntFields → Option MissionItem
unfolding are_params_zero
rtl_from_remote r = if not (are_params_zero r) then none else some rtl

-- `mission_item_from_remote`; `none` is `UnsupportedRemoteMissionItem`.
unfoldable pub mission_item_from_remote : MissionItemIntFields → Option MissionItem
unfolding is_frame_supported takeoff_from_remote waypoint_from_remote land_from_remote
    rtl_from_remote
mission_item_from_remote r =
    if not (is_frame_supported r.command r.frame)
    then none
    else if r.command == command_takeoff
    then takeoff_from_remote r
    else if r.command == command_waypoint
    then waypoint_from_remote r
    else if r.command == command_land
    then land_from_remote r
    else if r.command == command_return_to_launch
    then rtl_from_remote r
    else none
