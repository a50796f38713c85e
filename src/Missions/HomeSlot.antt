-- ===== src/Missions/HomeSlot.antt =====
-- The home slot at sequence 0 of a downloaded mission (src/mavctl/models/mission.py).
use mavctl.Prelude.{
  ◌>>=◌, ℕ, ◌≡◌, ◌≤◌, ◌↔◌, Bool, true, false, not, ◌&&◌, ◌||◌, Option, none, some, Float, finite,
  zero_float, float_le, float_eq, float_sub, float_abs, if◌then◌else◌, ◌==◌, ltb, ℤ, pos, ◌-ℤ◌, abs,
  round_e7, arith,
}
use mavctl.Missions.Wire.{MissionItemIntFields, command_waypoint, frame_global, are_params_zero}

-- `HOME_SLOT_COORD_TOLERANCE_INT`
abbrev pub home_slot_coord_tolerance_int : ℕ
home_slot_coord_tolerance_int = 1

-- `HOME_SLOT_ALT_TOLERANCE_M`
abbrev pub home_slot_alt_tolerance_m : Float
home_slot_alt_tolerance_m = finite (pos 10000000)

-- The three comparisons with the cached home; `none` is the exception of `round`.
unfoldable pub is_near_home : MissionItemIntFields → Float → Float → Float → Option Bool
is_near_home r home_lat_deg home_lon_deg home_alt_msl_m = do
  lat ← round_e7 home_lat_deg
  if ltb home_slot_coord_tolerance_int (abs (r.x -ℤ lat)) then some false else do
    lon ← round_e7 home_lon_deg
    if ltb home_slot_coord_tolerance_int (abs (r.y -ℤ lon))
        then some false
        else some (float_le (float_abs (float_sub r.z home_alt_msl_m)) home_slot_alt_tolerance_m)

-- The end of the test, once the wire form is the canonical one.
unfoldable pub is_at_home :
    MissionItemIntFields → Option Float → Option Float → Option Float → Option Bool
unfolding is_near_home
is_at_home r (some home_lat_deg) (some home_lon_deg) (some home_alt_msl_m) =
    is_near_home r home_lat_deg home_lon_deg home_alt_msl_m
is_at_home r _ _ _ = some false

-- `is_home_slot_item`, with `current` and `autocontinue` beside the other fields.
unfoldable pub is_home_slot_item :
    MissionItemIntFields → ℕ → ℕ → Option Float → Option Float → Option Float → Option Bool
unfolding are_params_zero is_at_home
is_home_slot_item r current autocontinue home_lat_deg home_lon_deg home_alt_msl_m =
    if not (r.command == command_waypoint) || not (r.frame == frame_global)
    then some false
    else if not (current == 0 && autocontinue == 1)
    then some false
    else if not (are_params_zero r)
    then some false
    else is_at_home r home_lat_deg home_lon_deg home_alt_msl_m

-- The wire form that ArduPilot gives its home.
abbrev pub IsCanonicalHome : MissionItemIntFields → ℕ → ℕ → Type 0
IsCanonicalHome r current autocontinue =
    (r.command ≡ command_waypoint)
    × (r.frame ≡ frame_global)
    × (current ≡ 0)
    × (autocontinue ≡ 1)
    × (r.param1 ≡ zero_float)
    × (r.param2 ≡ zero_float)
    × (r.param3 ≡ zero_float)
    × (r.param4 ≡ zero_float)

-- The wire coordinate is within one unit of the home's.
abbrev pub IsNear : Option ℤ → ℤ → Type 0
IsNear none n = ⊥
IsNear (some home) n = abs (n -ℤ home) ≤ 1

-- Both coordinates and the altitude match the home that was received.
abbrev pub MatchesHome : MissionItemIntFields → Option Float → Option Float → Option Float → Type 0
MatchesHome r (some home_lat_deg) (some home_lon_deg) (some home_alt_msl_m) =
    IsNear (round_e7 home_lat_deg) r.x
    × IsNear (round_e7 home_lon_deg) r.y
    × (float_le (float_abs (float_sub r.z home_alt_msl_m)) home_slot_alt_tolerance_m ≡ true)
MatchesHome r _ _ _ = ⊥

are_params_zero_iff :
    (r : MissionItemIntFields)
    → (are_params_zero r ≡ true) ↔ (
        (r.param1 ≡ zero_float)
        × (r.param2 ≡ zero_float)
        × (r.param3 ≡ zero_float)
        × (r.param4 ≡ zero_float))
unfolding are_params_zero float_eq float_le
are_params_zero_iff r = ground arith

is_at_home_iff :
    (r : MissionItemIntFields) (lat lon alt : Option Float)
    → (is_at_home r lat lon alt ≡ some true) ↔ MatchesHome r lat lon alt
unfolding is_at_home is_near_home
is_at_home_iff r none lon alt = ground arith
is_at_home_iff r (some lat) none alt = ground arith
is_at_home_iff r (some lat) (some lon) none = ground arith
is_at_home_iff r (some lat) (some lon) (some alt) = ground arith

-- An item at sequence 0 counts as the home slot exactly when it has the canonical form and a
-- home position was received that it matches: each coordinate to one unit of 10⁻⁷ degrees, the
-- altitude to a centimetre.
pub is_home_slot_item_iff :
    (r : MissionItemIntFields) (current autocontinue : ℕ) (lat lon alt : Option Float)
    → (is_home_slot_item r current autocontinue lat lon alt ≡ some true)
      ↔ (IsCanonicalHome r current autocontinue × MatchesHome r lat lon alt)
unfolding is_home_slot_item
is_home_slot_item_iff r current autocontinue lat lon alt =
    ground (arith, are_params_zero_iff r, is_at_home_iff r lat lon alt)
