-- ===== src/Missions/Carried.antt =====
-- An item is sent as wire fields and read from what is received of them.
use mathlib.Core.Path.{subst}
use mavctl.Prelude.{
  ℕ, ◌≡◌, none, round_e7, is_finite, finite, nan, infinity, minus_infinity, refl, sym, ap, ◌∙◌,
  true, some, Float, zero_float, float_eq, float_le, ℤ, abs, of_e7, round-of_e7, arith,
}
use mavctl.Models.Mission.{MissionItem, takeoff, waypoint, land, rtl}
use mavctl.Missions.Schema.{is_degrees, is_valid_item, validated}
use mavctl.Missions.Wire.{
  MissionItemIntFields, mission_item_to_int_fields, mission_item_from_remote, is_frame_supported,
  are_params_zero, takeoff_from_remote, waypoint_from_remote, land_from_remote, rtl_from_remote,
  command_waypoint, command_land, frame_global_relative_alt_int,
}

-- A coordinate that is a whole number of 10⁻⁷ degrees.
abbrev pub IsExact : Float → Type 0
IsExact degrees = (n : ℤ) × (degrees ≡ of_e7 n)

abbrev pub HasExact : MissionItem → Type 0
HasExact (waypoint lat_deg lon_deg altitude_m hold_s accept_radius_m) =
    IsExact lat_deg × IsExact lon_deg
HasExact (land lat_deg lon_deg altitude_m abort_alt_m) = IsExact lat_deg × IsExact lon_deg
HasExact _ = Unit {0}

-- A coordinate at the grid of the wire.
unfoldable pub on_grid : Float → Float
unfolding round_e7
on_grid degrees = elim (round_e7 degrees) [ none ↦ degrees | some n ↦ of_e7 n ]

-- `wire` is what a message makes of a float: `MISSION_ITEM_INT` holds the altitude and the four
-- parameters in 32 bits.
module _ (wire : Float → Float) where
  -- The fields as they are received, in a frame of the vehicle's.
  abbrev pub carried : ℕ → MissionItemIntFields → MissionItemIntFields
  carried frame f = record f {
    param1 = wire f.param1;
    param2 = wire f.param2;
    param3 = wire f.param3;
    param4 = wire f.param4;
    z = wire f.z;
    frame = frame;
  }

  -- The item with its coordinates at the grid and its other numbers as the wire makes them.
  abbrev pub rounded : MissionItem → MissionItem
  rounded (takeoff altitude_m) = takeoff (wire altitude_m)
  rounded (waypoint lat_deg lon_deg altitude_m hold_s accept_radius_m) =
      waypoint (on_grid lat_deg) (on_grid lon_deg) (wire altitude_m) (wire hold_s)
        (wire accept_radius_m)
  rounded (land lat_deg lon_deg altitude_m abort_alt_m) =
      land (on_grid lat_deg) (on_grid lon_deg) (wire altitude_m) (wire abort_alt_m)
  rounded rtl = rtl

  -- The item is sent as some fields, and what is received of them, in each frame that is accepted
  -- for the command, is read as the rounded item.
  abbrev pub Travels : MissionItem → Type 0
  Travels item =
      (fields : MissionItemIntFields) × (mission_item_to_int_fields item ≡ some fields)
      × ((frame : ℕ)
          → is_frame_supported fields.command frame ≡ true
          → mission_item_from_remote (carried frame fields) ≡ some (rounded item))

validated_valid : (item : MissionItem) → is_valid_item item ≡ true → validated item ≡ some item
unfolding validated
validated_valid item v = rw (v, validated) refl

zero_eq : float_eq zero_float zero_float ≡ true
unfolding float_eq float_le
zero_eq = refl

-- A coordinate of a valid item is rounded.
grid_cases :
    (limit : ℕ) (degrees : Float)
    → is_degrees limit (on_grid degrees) ≡ true
    → (n : ℤ) × (round_e7 degrees ≡ some n) × (on_grid degrees ≡ of_e7 n)
unfolding is_degrees is_finite round_e7 on_grid
grid_cases limit (finite a) v = (_, refl, refl)
grid_cases limit nan v = absurd (ground arith)
grid_cases limit infinity v = absurd (ground arith)
grid_cases limit minus_infinity v = absurd (ground arith)

module _ (wire : Float → Float) (zero : wire zero_float ≡ zero_float) where
  takeoff-Travels : (a : Float) → is_valid_item (takeoff (wire a)) ≡ true → Travels wire (takeoff a)
  unfolding mission_item_to_int_fields mission_item_from_remote takeoff_from_remote are_params_zero
      abs
  takeoff-Travels a v =
      (_, refl, λ frame h. rw zero (ground (arith, validated_valid (takeoff (wire a)) v, zero_eq)))

  waypoint-Travels :
      (lat lon a h r : Float) (m n : ℤ)
      → round_e7 lat ≡ some m
      → round_e7 lon ≡ some n
      → on_grid lat ≡ of_e7 m
      → on_grid lon ≡ of_e7 n
      → is_valid_item (waypoint (on_grid lat) (on_grid lon) (wire a) (wire h) (wire r)) ≡ true
      → Travels wire (waypoint lat lon a h r)
  unfolding mission_item_to_int_fields mission_item_from_remote waypoint_from_remote
  waypoint-Travels lat lon a h r m n p q g k v = (
    record {
      command = command_waypoint;
      param1 = h;
      param2 = r;
      param3 = zero_float;
      param4 = zero_float;
      x = m;
      y = n;
      z = a;
      frame = frame_global_relative_alt_int;
    },
    rw (p, q) refl,
    λ frame ok.
        rw (g, k, zero)
          (ground (
            arith,
            validated_valid (waypoint (of_e7 m) (of_e7 n) (wire a) (wire h) (wire r))
                (rw (sym g, sym k) v),
            zero_eq,
          )),
  )

  land-Travels :
      (lat lon a b : Float) (m n : ℤ)
      → round_e7 lat ≡ some m
      → round_e7 lon ≡ some n
      → on_grid lat ≡ of_e7 m
      → on_grid lon ≡ of_e7 n
      → is_valid_item (land (on_grid lat) (on_grid lon) (wire a) (wire b)) ≡ true
      → Travels wire (land lat lon a b)
  unfolding mission_item_to_int_fields mission_item_from_remote land_from_remote
  land-Travels lat lon a b m n p q g k v = (
    record {
      command = command_land;
      param1 = b;
      param2 = zero_float;
      param3 = zero_float;
      param4 = zero_float;
      x = m;
      y = n;
      z = a;
      frame = frame_global_relative_alt_int;
    },
    rw (p, q) refl,
    λ frame ok.
        rw (g, k, zero)
          (ground (
            arith,
            validated_valid (land (of_e7 m) (of_e7 n) (wire a) (wire b)) (rw (sym g, sym k) v),
            zero_eq,
          )),
  )

  rtl-Travels : Travels wire rtl
  unfolding mission_item_to_int_fields mission_item_from_remote rtl_from_remote are_params_zero
  rtl-Travels = (_, refl, λ frame ok. rw zero (ground (arith, zero_eq)))

  -- An item that is sent is read again, in each accepted frame, with its coordinates rounded to
  -- whole numbers of 10⁻⁷ degrees and its other numbers as the message makes them, where 0 stays 0;
  -- provided that the item with these numbers is valid.
  pub from_remote-to_int_fields :
      (item : MissionItem) → is_valid_item (rounded wire item) ≡ true → Travels wire item
  unfolding is_valid_item
  from_remote-to_int_fields (takeoff a) v = takeoff-Travels a v
  from_remote-to_int_fields (waypoint lat lon a h r) v =
      let (m, p, g) = grid_cases 90 lat (ground arith) in
      let (n, q, k) = grid_cases 180 lon (ground arith) in
      waypoint-Travels lat lon a h r m n p q g k v
  from_remote-to_int_fields (land lat lon a b) v =
      let (m, p, g) = grid_cases 90 lat (ground arith) in
      let (n, q, k) = grid_cases 180 lon (ground arith) in land-Travels lat lon a b m n p q g k v
  from_remote-to_int_fields rtl v = rtl-Travels

exact-on_grid : (degrees : Float) → IsExact degrees → on_grid degrees ≡ degrees
unfolding on_grid
exact-on_grid degrees (n, e) = rw (e, round-of_e7 n, on_grid) refl

HasExact-rounded : (item : MissionItem) → HasExact item → rounded (λ a. a) item ≡ item
HasExact-rounded (takeoff a) e = refl
HasExact-rounded (waypoint lat lon a h r) (p, q) =
    rw (exact-on_grid lat p, exact-on_grid lon q) refl
HasExact-rounded (land lat lon a b) (p, q) = rw (exact-on_grid lat p, exact-on_grid lon q) refl
HasExact-rounded rtl e = refl

-- Fields that come back as they were sent, up to the frame, are read as the item.
pub stored-item :
    (item : MissionItem)
    → is_valid_item item ≡ true
    → HasExact item
    → (fields : MissionItemIntFields) × (mission_item_to_int_fields item ≡ some fields)
      × ((frame : ℕ)
          → is_frame_supported fields.command frame ≡ true
          → mission_item_from_remote (record fields { frame = frame }) ≡ some item)
stored-item item v e =
    let same : rounded (λ a. a) item ≡ item = HasExact-rounded item e in
    let (fields, sent, back) =
      from_remote-to_int_fields (λ a. a) refl item
        (subst (λ i. is_valid_item i ≡ true) (sym same) v) in
    (fields, sent, λ frame ok. back frame ok ∙ ap some same)
