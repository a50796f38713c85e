-- ===== src/Missions/Lossless.antt =====
-- Fields that are accepted from the vehicle are read without a loss.
use mavctl.Prelude.{
  ◌≡◌, ◌≢◌, ◌⊎◌, inl, inr, true, some, zero_float, if◌then◌else◌, ◌==◌, pos, abs, round-of_e7,
  float_eq_zero, arith,
}
use mavctl.Models.Mission.{MissionItem}
use mavctl.Missions.Schema.{is_valid_item, validated}
use mavctl.Missions.Wire.{
  MissionItemIntFields, mission_item_to_int_fields, mission_item_from_remote, are_params_zero,
  takeoff_from_remote, waypoint_from_remote, land_from_remote, rtl_from_remote,
  command_return_to_launch, frame_global_relative_alt_int,
}

-- The fields as mavctl sends them: always frame 6, and no location for a return to launch.
abbrev pub canonical : MissionItemIntFields → MissionItemIntFields
canonical r =
    if r.command == command_return_to_launch
    then record r { x = pos 0; y = pos 0; z = zero_float; frame = frame_global_relative_alt_int }
    else record r { frame = frame_global_relative_alt_int }

-- The item is valid and would be sent as the fields.
abbrev SentAs : MissionItem → MissionItemIntFields → Type 0
SentAs item r = (is_valid_item item ≡ true) × (mission_item_to_int_fields item ≡ some r)

takeoff_accepted :
    (r : MissionItemIntFields) (item : MissionItem)
    → r.command ≡ 22
    → takeoff_from_remote r ≡ some item
    → SentAs item (record r { frame = frame_global_relative_alt_int })
unfolding mission_item_to_int_fields takeoff_from_remote are_params_zero validated abs
takeoff_accepted r item c e = ground (
  arith,
  float_eq_zero r.param1,
  float_eq_zero r.param2,
  float_eq_zero r.param3,
  float_eq_zero r.param4,
)

waypoint_accepted :
    (r : MissionItemIntFields) (item : MissionItem)
    → r.command ≡ 16
    → waypoint_from_remote r ≡ some item
    → SentAs item (record r { frame = frame_global_relative_alt_int })
unfolding mission_item_to_int_fields waypoint_from_remote validated
waypoint_accepted r item c e =
    ground (arith, float_eq_zero r.param3, float_eq_zero r.param4, round-of_e7 r.x, round-of_e7 r.y)

land_accepted :
    (r : MissionItemIntFields) (item : MissionItem)
    → r.command ≡ 21
    → land_from_remote r ≡ some item
    → SentAs item (record r { frame = frame_global_relative_alt_int })
unfolding mission_item_to_int_fields land_from_remote validated
land_accepted r item c e = ground (
  arith,
  float_eq_zero r.param2,
  float_eq_zero r.param3,
  float_eq_zero r.param4,
  round-of_e7 r.x,
  round-of_e7 r.y,
)

rtl_accepted :
    (r : MissionItemIntFields) (item : MissionItem)
    → r.command ≡ 20
    → rtl_from_remote r ≡ some item
    → SentAs item
        (record r { x = pos 0; y = pos 0; z = zero_float; frame = frame_global_relative_alt_int })
unfolding mission_item_to_int_fields rtl_from_remote are_params_zero is_valid_item
rtl_accepted r item c e = ground (
  arith,
  float_eq_zero r.param1,
  float_eq_zero r.param2,
  float_eq_zero r.param3,
  float_eq_zero r.param4,
)

-- The branch that accepted the fields.
accepted_cases :
    (r : MissionItemIntFields) (item : MissionItem)
    → mission_item_from_remote r ≡ some item
    → ((r.command ≡ 22) × (takeoff_from_remote r ≡ some item))
      ⊎ ((r.command ≡ 16) × (waypoint_from_remote r ≡ some item))
      ⊎ ((r.command ≡ 21) × (land_from_remote r ≡ some item))
      ⊎ ((r.command ≡ 20) × (rtl_from_remote r ≡ some item))
unfolding mission_item_from_remote
accepted_cases r item e = ground arith

canonical_other :
    (r : MissionItemIntFields)
    → r.command ≢ 20
    → canonical r ≡ record r { frame = frame_global_relative_alt_int }
canonical_other r h = ground arith

canonical_rtl :
    (r : MissionItemIntFields)
    → r.command ≡ 20
    → canonical r
      ≡ record r { x = pos 0; y = pos 0; z = zero_float; frame = frame_global_relative_alt_int }
canonical_rtl r h = ground arith

-- What is accepted from the vehicle is exact: the item is valid, and it would be sent again with
-- the same command, parameters, coordinates and altitude; only the frame and, for a return to
-- launch, the location are normalised.
pub to_int_fields-from_remote :
    (r : MissionItemIntFields) (item : MissionItem)
    → mission_item_from_remote r ≡ some item
    → (is_valid_item item ≡ true) × (mission_item_to_int_fields item ≡ some (canonical r))
to_int_fields-from_remote r item e = elim (accepted_cases r item e) [
  | inl (c, a) ↦ rw (canonical_other r (omega arith)) (takeoff_accepted r item c a)
  | inr (inl (c, a)) ↦ rw (canonical_other r (omega arith)) (waypoint_accepted r item c a)
  | inr (inr (inl (c, a))) ↦ rw (canonical_other r (omega arith)) (land_accepted r item c a)
  | inr (inr (inr (c, a))) ↦ rw (canonical_rtl r c) (rtl_accepted r item c a)
]
