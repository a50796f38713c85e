-- ===== src/Examples/DownloadHistories.antt =====
-- The theorems on the download, at the short mission read back from a vehicle at its home.
use mavctl.Prelude.{
  ℕ, ◌≡◌, refl, true, some, List, [], ◌∷◌, ◌++◌, pos, metres, zero_float, of_e7, All, Option, arith,
  is_finite, float_lt, float_le, round_e7, round_hundredth_ℤ, float_eq, abs, ◌-ℤ◌, float_abs,
  float_sub, scale,
}
use mavctl.Models.State.{HomePosition}
use mavctl.Missions.Wire.{MissionItemIntFields, mission_item_to_int_fields, is_frame_supported}
use mavctl.Missions.Schema.{validate_mission}
use mavctl.Missions.Carried.{HasExact}
use mavctl.Adapter.Inbox.{WireItem, silent}
use mavctl.Adapter.Upload.{fields_of}
use mavctl.Adapter.Download.{downloaded, ended, check_home_slot_item, download_run, download_begin}
use mavctl.Adapter.DownloadRuns.{Sound}
use mavctl.Adapter.DownloadHeard.{
  HeardItem, HeardCount, IsOver, download_run-Sound, download_run-IsOver,
}
use mavctl.Adapter.DownloadHonest.{Stores, honest_events, download_run-uploaded}
use mavctl.Examples.Snapshots.{short_mission}

abbrev home : Option HomePosition
home = some (record {
  lat_deg = some (metres 47);
  lon_deg = some (metres 8);
  alt_msl_m = some (metres 400);
})

abbrev slot : WireItem
slot = record {
  fields = record {
    command = 16;
    param1 = zero_float;
    param2 = zero_float;
    param3 = zero_float;
    param4 = zero_float;
    x = pos 470000000;
    y = pos 80000000;
    z = metres 400;
    frame = 0;
  };
  current = 0;
  autocontinue = 1;
}

abbrev stored_item : MissionItemIntFields → WireItem
stored_item fields = record { fields = record fields { frame = 3 }; current = 0; autocontinue = 1 }

abbrev plain : ℕ → MissionItemIntFields
plain command = record {
  command = command;
  param1 = zero_float;
  param2 = zero_float;
  param3 = zero_float;
  param4 = zero_float;
  x = pos 0;
  y = pos 0;
  z = zero_float;
  frame = 6;
}

abbrev short_fields : List MissionItemIntFields
short_fields =
    record (plain 22) { z = metres 10 }
    ∷ record (plain 16) { x = pos 470000000; y = pos 80000000; z = metres 20 }
    ∷ plain 20
    ∷ []

abbrev short_stored : List WireItem
short_stored =
    stored_item (record (plain 22) { z = metres 10 })
    ∷ stored_item (record (plain 16) { x = pos 470000000; y = pos 80000000; z = metres 20 })
    ∷ stored_item (plain 20)
    ∷ []

short_valid : validate_mission short_mission ≡ true
unfolding validate_mission is_finite float_lt float_le
short_valid = refl

short_exact : All HasExact short_mission.items
unfolding of_e7 scale
short_exact = (tt, (((pos 470000000, refl), (pos 80000000, refl)), (tt, tt)))

short_sent : fields_of short_mission.items ≡ some short_fields
unfolding fields_of mission_item_to_int_fields round_e7 round_hundredth_ℤ
short_sent = refl

slot_verified : check_home_slot_item home slot ≡ some true
unfolding check_home_slot_item float_eq round_e7 abs ◌-ℤ◌ round_hundredth_ℤ float_abs float_sub
slot_verified = refl

short_fields-Stores : Stores short_fields short_stored
unfolding is_frame_supported
short_fields-Stores = ((3, refl, refl), ((3, refl, refl), ((3, refl, refl), tt)))

download_run-uploaded_example :
    download_run home 15000000000 download_begin
      (honest_events 1000000000 1000000000 (slot ∷ short_stored))
    ≡ ended (downloaded short_mission)
download_run-uploaded_example =
    download_run-uploaded short_mission short_fields home slot short_stored 15000000000 1000000000
      1000000000 short_valid short_exact short_sent slot_verified short_fields-Stores

download_run-Sound_example :
    Sound home
      (HeardItem (honest_events 0 0 (slot ∷ short_stored)))
      (HeardCount (honest_events 0 0 (slot ∷ short_stored)))
      (download_run home 15000000000 download_begin (honest_events 0 0 (slot ∷ short_stored)))
download_run-Sound_example =
    download_run-Sound home 15000000000 (honest_events 0 0 (slot ∷ short_stored))

download_run-IsOver_example :
    IsOver (download_run home 15 download_begin ((silent 1 2 ∷ []) ++ silent 14 16 ∷ []))
download_run-IsOver_example =
    download_run-IsOver home 15 14 16 download_begin (silent 1 2 ∷ []) [] (omega arith)
