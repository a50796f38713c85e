-- ===== src/Examples/MissionRuns.antt =====
-- The theorems on missions, at a landing near Zurich and at a home slot.
use mavctl.Prelude.{
  ◌≡◌, ◌≤◌, ◌↔◌, refl, true, some, pos, abs, zero_float, metres, of_e7, is_finite, float_le, scale,
  float_lt, float_eq, finite, round_thousandths, round_e7, ◌-ℤ◌, round_hundredth_ℤ, float_abs,
  float_sub,
}
use mavctl.Models.Mission.{MissionItem, land}
use mavctl.Missions.Schema.{is_valid_item, validate_mission}
use mavctl.Missions.Wire.{
  MissionItemIntFields, mission_item_to_int_fields, mission_item_from_remote,
}
use mavctl.Missions.HomeSlot.{
  IsCanonicalHome, MatchesHome, is_home_slot_item, is_home_slot_item_iff,
}
use mavctl.Missions.Lossless.{canonical, to_int_fields-from_remote}
use mavctl.Missions.Carried.{rounded, on_grid, Travels, from_remote-to_int_fields}
use mavctl.Missions.Bounds.{Located, to_int_fields_bounded}
use mavctl.Missions.Sequence.{IsUpload, validate_mission_iff}
use mavctl.Examples.Snapshots.{short_mission}

abbrev pub landing : MissionItem
landing = land (of_e7 (pos 473977418)) (of_e7 (pos 85455938)) (metres 10) (metres 0)

pub landing_valid : is_valid_item landing ≡ true
unfolding is_valid_item is_finite of_e7 float_le scale float_lt
landing_valid = refl

-- A landing off the grid, on a wire that keeps thousandths.
abbrev off_grid : MissionItem
off_grid =
    land (finite (pos 47397741834)) (of_e7 (pos 85455938)) (finite (pos 10100400000)) (metres 0)

rounded_valid : is_valid_item (rounded round_thousandths off_grid) ≡ true
unfolding is_valid_item is_finite of_e7 float_le scale float_lt round_thousandths on_grid
    round_hundredth_ℤ
rounded_valid = refl

from_remote-to_int_fields_example : Travels round_thousandths off_grid
unfolding round_thousandths
from_remote-to_int_fields_example =
    from_remote-to_int_fields round_thousandths refl off_grid rounded_valid

-- The same landing as ArduPilot sends it, in frame 3.
abbrev pub echoed : MissionItemIntFields
echoed = record {
  command = 21;
  param1 = zero_float;
  param2 = zero_float;
  param3 = zero_float;
  param4 = zero_float;
  x = pos 473977418;
  y = pos 85455938;
  z = metres 10;
  frame = 3;
}

to_int_fields-from_remote_example :
    (is_valid_item landing ≡ true) × (mission_item_to_int_fields landing ≡ some (canonical echoed))
unfolding mission_item_from_remote float_eq is_finite of_e7 scale float_lt
to_int_fields-from_remote_example = to_int_fields-from_remote echoed landing refl

to_int_fields_bounded_example :
    (r : MissionItemIntFields) × (mission_item_to_int_fields landing ≡ some r)
    × Located landing r
    × (abs r.x ≤ 900000000)
    × (abs r.y ≤ 1800000000)
to_int_fields_bounded_example = to_int_fields_bounded landing landing_valid

abbrev home : MissionItemIntFields
home = record {
  command = 16;
  param1 = zero_float;
  param2 = zero_float;
  param3 = zero_float;
  param4 = zero_float;
  x = pos 473977418;
  y = pos 85455938;
  z = metres 488;
  frame = 0;
}

is_home_slot_item_iff_example :
    (is_home_slot_item home 0 1
        (some (of_e7 (pos 473977418)))
        (some (of_e7 (pos 85455939)))
        (some (metres 488))
      ≡ some true)
    ↔ (IsCanonicalHome home 0 1
        × MatchesHome home
            (some (of_e7 (pos 473977418)))
            (some (of_e7 (pos 85455939)))
            (some (metres 488)))
is_home_slot_item_iff_example =
    is_home_slot_item_iff home 0 1 (some (of_e7 (pos 473977418))) (some (of_e7 (pos 85455939)))
      (some (metres 488))

home_recognised :
    is_home_slot_item home 0 1
      (some (of_e7 (pos 473977418)))
      (some (of_e7 (pos 85455939)))
      (some (metres 488))
    ≡ some true
unfolding is_home_slot_item float_eq round_e7 of_e7 abs ◌-ℤ◌ round_hundredth_ℤ scale float_abs
    float_sub
home_recognised = refl

validate_mission_iff_example : (validate_mission short_mission ≡ true) ↔ IsUpload short_mission
validate_mission_iff_example = validate_mission_iff short_mission

short_mission_valid : validate_mission short_mission ≡ true
unfolding validate_mission is_finite float_lt float_le
short_mission_valid = refl
