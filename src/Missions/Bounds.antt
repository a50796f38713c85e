-- ===== src/Missions/Bounds.antt =====
-- The wire coordinates of a valid item fit their fields and are as near as the scale allows.
use mavctl.Prelude.{
  ℕ, suc, nan, infinity, minus_infinity, ◌≡◌, ◌≤◌, ◌*◌, refl, zero_float, true, some, Float, finite,
  float_le, is_finite, ℤ, pos, negsuc, abs, scale, ◌-ℤ◌, round_e7, round_hundredth,
  round_hundredth_ℤ, round_error, arith,
}
use mavctl.Models.Mission.{MissionItem, takeoff, waypoint, land, rtl}
use mavctl.Missions.Schema.{is_degrees, is_valid_item}
use mavctl.Missions.Wire.{
  command_waypoint, command_land, frame_global_relative_alt_int, MissionItemIntFields,
  mission_item_to_int_fields,
}

-- `n` is the coordinate in units of 10⁻⁷ degrees, to half a unit.
abbrev pub IsNearest : Float → ℤ → Type 0
IsNearest (finite a) n = abs (a -ℤ scale n 100) ≤ 50
IsNearest _ n = ⊥

-- A coordinate of an item, if it has one, is near the wire value.
abbrev pub Located : MissionItem → MissionItemIntFields → Type 0
Located (waypoint lat_deg lon_deg altitude_m hold_s accept_radius_m) r =
    IsNearest lat_deg r.x × IsNearest lon_deg r.y
Located (land lat_deg lon_deg altitude_m abort_alt_m) r =
    IsNearest lat_deg r.x × IsNearest lon_deg r.y
Located _ r = (r.x ≡ pos 0) × (r.y ≡ pos 0)

rounded_bounded :
    (limit : ℕ) (a : ℤ) → abs a ≤ limit * 1000000000 → abs (round_hundredth_ℤ a) ≤ limit * 10000000
unfolding round_hundredth_ℤ round_hundredth abs
rounded_bounded limit (pos n) h = ground arith
rounded_bounded limit (negsuc n) h = ground arith

degrees_abs :
    (limit : ℕ) (a : ℤ) → is_degrees (suc limit) (finite a) ≡ true → abs a ≤ suc limit * 1000000000
unfolding is_degrees float_le abs
degrees_abs limit a h = ground arith

degrees_finite : (limit : ℕ) (a : Float) → is_degrees limit a ≡ true → is_finite a ≡ true
unfolding is_degrees
degrees_finite limit a h = ground arith

-- The wire value of a coordinate within some whole number of degrees.
record Rounded (limit : ℕ) (a : Float) : Type 0 where
  wire : ℤ
  rounds : round_e7 a ≡ some wire
  nearest : IsNearest a wire
  bounded : abs wire ≤ limit * 10000000

rounded : (limit : ℕ) (a : Float) → is_degrees (suc limit) a ≡ true → Rounded (suc limit) a
unfolding round_e7 is_finite
rounded limit (finite a) h = record {
  wire = round_hundredth_ℤ a;
  rounds = refl;
  nearest = round_error a;
  bounded = rounded_bounded (suc limit) a (degrees_abs limit a h);
}
rounded limit nan h = absurd (ground (arith, degrees_finite (suc limit) nan h))
rounded limit infinity h = absurd (ground (arith, degrees_finite (suc limit) infinity h))
rounded limit minus_infinity h =
    absurd (ground (arith, degrees_finite (suc limit) minus_infinity h))

-- A valid item always has wire fields: the coordinates are within ±90 and ±180 degrees at the
-- scale of 10⁻⁷, so they fit 32 bits with a sign, and each is within half a unit of the item's.
pub to_int_fields_bounded :
    (item : MissionItem)
    → is_valid_item item ≡ true
    → (r : MissionItemIntFields) × (mission_item_to_int_fields item ≡ some r)
      × Located item r
      × (abs r.x ≤ 900000000)
      × (abs r.y ≤ 1800000000)
unfolding mission_item_to_int_fields is_valid_item abs
to_int_fields_bounded (takeoff a) v = (_, refl, (refl, refl), omega arith, omega arith)
to_int_fields_bounded (waypoint lat lon a h r) v =
    let x : Rounded 90 lat = rounded 89 lat (ground arith) in
    let y : Rounded 180 lon = rounded 179 lon (ground arith) in
    (
      record {
        command = command_waypoint;
        param1 = h;
        param2 = r;
        param3 = zero_float;
        param4 = zero_float;
        x = x.wire;
        y = y.wire;
        z = a;
        frame = frame_global_relative_alt_int;
      },
      rw (x.rounds, y.rounds) refl,
      (x.nearest, y.nearest),
      x.bounded,
      y.bounded,
    )
to_int_fields_bounded (land lat lon a b) v =
    let x : Rounded 90 lat = rounded 89 lat (ground arith) in
    let y : Rounded 180 lon = rounded 179 lon (ground arith) in
    (
      record {
        command = command_land;
        param1 = b;
        param2 = zero_float;
        param3 = zero_float;
        param4 = zero_float;
        x = x.wire;
        y = y.wire;
        z = a;
        frame = frame_global_relative_alt_int;
      },
      rw (x.rounds, y.rounds) refl,
      (x.nearest, y.nearest),
      x.bounded,
      y.bounded,
    )
to_int_fields_bounded rtl v = (_, refl, (refl, refl), omega arith, omega arith)
