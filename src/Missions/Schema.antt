-- ===== src/Missions/Schema.antt =====
-- The checks that pydantic makes on mission items and on `MissionV1`
-- (src/mavctl/models/mission.py). A rejected value is a `ValidationError`.
use mavctl.Prelude.{
  Bool, true, false, not, ◌&&◌, Option, none, some, List, [], ◌∷◌, Float, zero_float, float_le,
  float_lt, is_finite, if◌then◌else◌, leb, ◌==◌, ℕ, ◌*◌, ◌-◌, finite, negsuc, pos, length, all,
}
use mavctl.Models.Mission.{MissionItem, takeoff, waypoint, land, rtl, MissionV1}

-- `MISSION_MAX_ITEMS`
abbrev pub mission_max_items : ℕ
mission_max_items = 100

-- `Field(ge=-limit, le=limit, allow_inf_nan=False)`, for a limit in whole degrees.
unfoldable pub is_degrees : ℕ → Float → Bool
is_degrees limit a =
    is_finite a
    && float_le (finite (negsuc (limit * 1000000000 - 1))) a
    && float_le a (finite (pos (limit * 1000000000)))

-- `_NonNegativeFloat`
unfoldable pub is_non_negative : Float → Bool
is_non_negative a = is_finite a && float_le zero_float a

-- `_PositiveAltitude`
unfoldable pub is_positive : Float → Bool
is_positive a = is_finite a && float_lt zero_float a

unfoldable pub is_valid_item : MissionItem → Bool
unfolding is_degrees is_non_negative is_positive
is_valid_item (takeoff altitude_m) = is_positive altitude_m
is_valid_item (waypoint lat_deg lon_deg altitude_m hold_s accept_radius_m) =
    is_degrees 90 lat_deg
    && is_degrees 180 lon_deg
    && is_positive altitude_m
    && is_non_negative hold_s
    && is_non_negative accept_radius_m
is_valid_item (land lat_deg lon_deg altitude_m abort_alt_m) =
    is_degrees 90 lat_deg
    && is_degrees 180 lon_deg
    && is_positive altitude_m
    && is_non_negative abort_alt_m
is_valid_item rtl = true

-- The construction of an item; `none` is the `ValidationError`.
unfoldable pub validated : MissionItem → Option MissionItem
unfolding is_valid_item
validated item = if is_valid_item item then some item else none

abbrev pub is_takeoff : MissionItem → Bool
is_takeoff (takeoff altitude_m) = true
is_takeoff _ = false

-- `isinstance(item, (MissionLand, MissionRtl))`
abbrev pub is_terminal_item : MissionItem → Bool
is_terminal_item (land lat_deg lon_deg altitude_m abort_alt_m) = true
is_terminal_item rtl = true
is_terminal_item _ = false

-- The loop over `self.items[:-1]`.
unfoldable pub is_open_ended : List MissionItem → Bool
is_open_ended [] = true
is_open_ended (item ∷ []) = true
is_open_ended (item ∷ next ∷ rest) = not (is_terminal_item item) && is_open_ended (next ∷ rest)

-- `_check_sequence_rules`, on a list that is not empty
unfoldable pub check_sequence_rules : List MissionItem → Bool
unfolding is_open_ended
check_sequence_rules [] = false
check_sequence_rules (first ∷ rest) = is_takeoff first && is_open_ended (first ∷ rest)

-- The validation of `MissionV1`: its field constraints, `_exact_version` and the sequence rules.
unfoldable pub validate_mission : MissionV1 → Bool
unfolding is_valid_item check_sequence_rules
validate_mission mission =
    mission.version == 1
    && leb 1 (length mission.items)
    && leb (length mission.items) mission_max_items
    && all is_valid_item mission.items
    && check_sequence_rules mission.items

-- The validation of `DownloadedMissionV1`.
unfoldable pub validate_downloaded : MissionV1 → Bool
unfolding is_valid_item
validate_downloaded mission =
    mission.version == 1
    && leb (length mission.items) mission_max_items
    && all is_valid_item mission.items
