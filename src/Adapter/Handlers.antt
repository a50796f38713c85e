-- ===== src/Adapter/Handlers.antt =====
-- The message handlers of src/mavctl/adapter/pymavlink_adapter.py, and `_handle_message`.
use mavctl.Prelude.{
  ℕ, ◌%◌, Bool, not, ◌||◌, Option, none, some, List, [], ◌∷◌, String, Float, ℤ, pos, negsuc, ◌==◌,
  if◌then◌else◌, of_e7, starts_with,
}
use mavctl.Models.Health.{Variances}
use mavctl.Adapter.Link.{Sender, is_locked_target, heed_heartbeat}
use mavctl.Adapter.Dialect.{
  Dialect, MavMessage, heartbeat, sys_status, global_position_int, attitude, gps_raw_int,
  extended_sys_state, mission_current, ekf_status_report, statustext, home_position, gps_fix_label,
  mav_state_label, landed_state_label, mission_state_label, uint16_max, of_hundredths,
  of_thousandths, has_bit, decode_ekf_flags,
}
use mavctl.Adapter.Snapshot.{Arrival, Snapshot}

-- A signed field that is negative when it is not populated.
abbrev non_negative : ℤ → Option ℕ
non_negative (pos n) = some n
non_negative (negsuc n) = none

abbrev label_or : Option String → String → String
label_or none other = other
label_or (some label) other = label

module _ (dialect : Dialect) where
  -- `_on_heartbeat`, behind the target's lock
  unfoldable pub take_heartbeat :
      Option String → ℕ → ℕ → ℕ → Sender → Float → Float → Snapshot → Snapshot
  unfolding mav_state_label
  take_heartbeat flightmode custom_mode base_mode system_status sender mono epoch s = record s {
    system_id = some sender.system;
    component_id = some sender.component;
    last_hb_monotonic = some mono;
    last_hb_epoch = some epoch;
    flight_mode = some (label_or flightmode (dialect.mode_text custom_mode));
    armed = some (has_bit base_mode dialect.safety_armed);
    system_status =
        some (label_or (mav_state_label system_status) (dialect.numbered "state_" system_status));
  }

  -- `_on_heartbeat`
  unfoldable pub on_heartbeat :
      Option String → ℕ → ℕ → ℕ → Sender → Float → Float → Snapshot → Snapshot
  unfolding heed_heartbeat take_heartbeat
  on_heartbeat flightmode custom_mode base_mode system_status sender mono epoch s =
      let (target, taken) = heed_heartbeat dialect.autopilot sender s.target in
      if taken
      then take_heartbeat flightmode custom_mode base_mode system_status sender mono epoch
          (record s { target = target })
      else s

  -- `_on_sys_status`
  unfoldable pub on_sys_status : ℕ → ℤ → ℤ → ℕ → ℕ → ℕ → Float → Snapshot → Snapshot
  unfolding of_thousandths of_hundredths
  on_sys_status voltage current remaining present enabled health mono s = record s {
    battery = record {
      voltage_v =
          if voltage == 0 || voltage == uint16_max
          then none
          else some (of_thousandths (pos voltage));
      current_a = elim (non_negative current) [
        | none ↦ none
        | some n ↦ some (of_hundredths (pos n))
      ];
      remaining_pct = non_negative remaining;
    };
    battery_ts_mono = some mono;
    sensors_present = some present;
    sensors_enabled = some enabled;
    sensors_health = some health;
    sensors_ts_mono = some mono;
  }

  -- `_on_global_position`
  unfoldable pub on_global_position :
      ℤ → ℤ → ℤ → ℤ → ℤ → ℤ → ℤ → ℕ → Float → Float → Snapshot → Snapshot
  unfolding of_e7 of_thousandths of_hundredths
  on_global_position lat lon alt relative_alt vx vy vz hdg mono epoch s = record s {
    position = record {
      lat_deg = some (of_e7 lat);
      lon_deg = some (of_e7 lon);
      alt_msl_m = some (of_thousandths alt);
      relative_alt_m = some (of_thousandths relative_alt);
    };
    velocity = record {
      vx_ms = some (of_hundredths vx);
      vy_ms = some (of_hundredths vy);
      vz_ms = some (of_hundredths vz);
      groundspeed_ms = some (dialect.hypot (of_hundredths vx) (of_hundredths vy));
      heading_deg = if hdg == uint16_max then none else some (of_hundredths (pos hdg));
    };
    relative_alt_m = some (of_thousandths relative_alt);
    telemetry_ts = some epoch;
    telemetry_ts_mono = some mono;
  }

  -- `_on_attitude`
  unfoldable pub on_attitude : Float → Float → Float → Float → Float → Snapshot → Snapshot
  on_attitude roll pitch yaw mono epoch s = record s {
    attitude = record {
      roll_deg = some (dialect.degrees roll);
      pitch_deg = some (dialect.degrees pitch);
      yaw_deg = some (dialect.degrees yaw);
    };
    telemetry_ts = some epoch;
    telemetry_ts_mono = some mono;
  }

  -- `_on_ekf_status_report`
  unfoldable pub on_ekf_status_report : ℕ → Variances → Float → Snapshot → Snapshot
  unfolding decode_ekf_flags
  on_ekf_status_report flags variances mono s = record s {
    ekf_flags_mask = some (flags % 65536);
    ekf_flags_names = decode_ekf_flags dialect (flags % 65536);
    ekf_variances = some variances;
    ekf_ts_mono = some mono;
  }

  -- `_on_mission_current`
  unfoldable pub on_mission_current : ℕ → ℕ → ℕ → ℕ → Float → Snapshot → Snapshot
  unfolding mission_state_label
  on_mission_current seq total mission_state mission_mode mono s = record s {
    mission_execution = some (record {
      current_seq = some seq;
      total = some total;
      state = some (
          label_or (mission_state_label mission_state)
            (dialect.numbered "mission_state_" mission_state));
      mode = some (if mission_mode == 1 then "mission" else "none");
      age_s = none;
    });
    mission_execution_ts_mono = some mono;
  }

-- `_on_gps_raw`
unfoldable pub on_gps_raw : ℕ → ℕ → Float → Snapshot → Snapshot
unfolding gps_fix_label
on_gps_raw fix_type satellites mono s = record s {
  gps = record {
    fix_type = some fix_type;
    fix_label = some (label_or (gps_fix_label fix_type) "unknown");
    satellites_visible = if satellites == 255 then none else some satellites;
  };
  gps_ts_mono = some mono;
}

-- `_on_extended_sys_state`
unfoldable pub on_extended_sys_state : ℕ → Float → Snapshot → Snapshot
unfolding landed_state_label
on_extended_sys_state landed_state mono s = record s {
  landed_state = landed_state_label landed_state;
  landed_state_ts_mono = some mono;
}

-- A text that starts like an arming check.
unfoldable pub is_prearm : String → Bool
unfolding starts_with
is_prearm text =
    starts_with text "PreArm:" || starts_with text "Arm:" || starts_with text "PreArm_EKF:"

-- `_on_statustext`
unfoldable pub on_statustext : Option String → ℕ → ℕ → ℕ → Float → Snapshot → Snapshot
unfolding is_prearm
on_statustext none chunk_seq id severity mono s = s
on_statustext (some text) chunk_seq id severity mono s =
    if not (chunk_seq == 0) || not (id == 0) || not (is_prearm text) then s else record s {
      prearm_last_message = some text;
      prearm_severity = some severity;
      prearm_ts_mono = some mono;
    }

-- `_on_home_position`
unfoldable pub on_home_position : ℤ → ℤ → ℤ → Float → Snapshot → Snapshot
unfolding of_e7 of_thousandths
on_home_position latitude longitude altitude mono s = record s {
  home = some (record {
    lat_deg = some (of_e7 latitude);
    lon_deg = some (of_e7 longitude);
    alt_msl_m = some (of_thousandths altitude);
  });
  home_ts_mono = some mono;
}

module _ (dialect : Dialect) where
  -- What a message of the locked target does, a heartbeat aside.
  unfoldable pub take_message : MavMessage → Float → Float → Snapshot → Snapshot
  unfolding on_sys_status on_global_position on_attitude on_gps_raw on_extended_sys_state
      on_mission_current on_ekf_status_report on_statustext on_home_position
  take_message (heartbeat flightmode custom_mode base_mode status) mono epoch s = s
  take_message (sys_status voltage current remaining present enabled health) mono epoch s =
      on_sys_status dialect voltage current remaining present enabled health mono s
  take_message (global_position_int lat lon alt relative_alt vx vy vz hdg) mono epoch s =
      on_global_position dialect lat lon alt relative_alt vx vy vz hdg mono epoch s
  take_message (attitude roll pitch yaw) mono epoch s =
      on_attitude dialect roll pitch yaw mono epoch s
  take_message (gps_raw_int fix_type satellites) mono epoch s =
      on_gps_raw fix_type satellites mono s
  take_message (extended_sys_state landed_state) mono epoch s =
      on_extended_sys_state landed_state mono s
  take_message (mission_current seq total mission_state mission_mode) mono epoch s =
      on_mission_current dialect seq total mission_state mission_mode mono s
  take_message (ekf_status_report flags variances) mono epoch s =
      on_ekf_status_report dialect flags variances mono s
  take_message (statustext text chunk_seq id severity) mono epoch s =
      on_statustext text chunk_seq id severity mono s
  take_message (home_position latitude longitude altitude) mono epoch s =
      on_home_position latitude longitude altitude mono s

  -- The lock's check that opens every handler but the heartbeat's.
  unfoldable pub guard_message : Arrival → Snapshot → Snapshot
  unfolding is_locked_target take_message
  guard_message a s =
      if not (is_locked_target s.target a.sender)
      then s
      else take_message a.message a.mono a.epoch s

  -- `_handle_message`, for the messages of the snapshot
  unfoldable pub handle_message : Arrival → Snapshot → Snapshot
  unfolding on_heartbeat guard_message
  handle_message a s = elim a.message [
    | heartbeat flightmode custom_mode base_mode status ↦
        on_heartbeat dialect flightmode custom_mode base_mode status a.sender a.mono a.epoch s
    | _ ↦ guard_message a s
  ]

  -- `_read_loop`, over what arrives
  unfoldable pub handle_all : List Arrival → Snapshot → Snapshot
  unfolding handle_message
  handle_all [] s = s
  handle_all (a ∷ rest) s = handle_all rest (handle_message a s)
