-- ===== src/Adapter/Vouched.antt =====
-- Whatever the snapshot says of the vehicle, the locked autopilot said.
use mavctl.Prelude.{
  ℕ, ◌≡◌, refl, Bool, true, not, Option, none, some, String, Float, if_cases, arith,
}
use mavctl.Adapter.Link.{Sender, is_locked_target}
use mavctl.Adapter.Dialect.{
  Dialect, MavMessage, heartbeat, sys_status, global_position_int, attitude, gps_raw_int,
  extended_sys_state, mission_current, ekf_status_report, statustext, home_position,
  landed_state_label, of_thousandths, has_bit,
}
use mavctl.Adapter.Snapshot.{Arrival, Snapshot, empty_snapshot}
use mavctl.Adapter.Handlers.{
  on_sys_status, on_global_position, on_attitude, on_gps_raw, on_extended_sys_state,
  on_mission_current, on_ekf_status_report, on_statustext, on_home_position, take_message,
  guard_message,
}

-- A heartbeat with this armed bit.
abbrev pub SaysArmed : Dialect → MavMessage → Bool → Type 0
SaysArmed dialect (heartbeat flightmode custom_mode base_mode status) b =
    has_bit base_mode dialect.safety_armed ≡ b
SaysArmed dialect _ b = ⊥

-- A report of this landed state.
abbrev pub SaysLanded : MavMessage → String → Type 0
SaysLanded (extended_sys_state n) label = landed_state_label n ≡ some label
SaysLanded _ label = ⊥

-- A position at this altitude above home.
abbrev pub SaysAltitude : MavMessage → Float → Type 0
SaysAltitude (global_position_int lat lon alt relative_alt vx vy vz hdg) altitude =
    of_thousandths relative_alt ≡ altitude
SaysAltitude _ altitude = ⊥

-- `P` holds of the messages that arrived.
module _ (dialect : Dialect) (P : Arrival → Type 0) where
  -- What is in the snapshot comes from messages of the locked target; the ages of the heartbeat and
  -- of the landed state are those of the very message.
  pub record Vouched (s : Snapshot) : Type 0 where
    pub armed :
        (b : Bool)
        → s.armed ≡ some b
        → (a : Arrival) × P a
          × SaysArmed dialect a.message b
          × (is_locked_target s.target a.sender ≡ true)
          × (s.last_hb_monotonic ≡ some a.mono)
    pub landed :
        (label : String)
        → s.landed_state ≡ some label
        → (a : Arrival) × P a
          × SaysLanded a.message label
          × (is_locked_target s.target a.sender ≡ true)
          × (s.landed_state_ts_mono ≡ some a.mono)
    pub altitude :
        (x : Float)
        → s.relative_alt_m ≡ some x
        → (a : Arrival) × P a
          × SaysAltitude a.message x
          × (is_locked_target s.target a.sender ≡ true)

  pub empty-Vouched : Vouched empty_snapshot
  unfolding empty_snapshot
  empty-Vouched = record { armed = λ b e. cc e; landed = λ label e. cc e; altitude = λ x e. cc e }

  statustext-Vouched :
      (s : Snapshot) (text : Option String) (chunk_seq id severity : ℕ) (mono : Float)
      → Vouched s
      → Vouched (on_statustext text chunk_seq id severity mono s)
  unfolding on_statustext
  statustext-Vouched s none chunk_seq id severity mono v = v
  statustext-Vouched s (some text) chunk_seq id severity mono v =
      if_cases Vouched _ (λ _. v)
        (λ _. record { armed = v.armed; landed = v.landed; altitude = v.altitude })

  -- A message of the target, a heartbeat aside.
  take_message-Vouched :
      (m : MavMessage) (s : Snapshot) (sender : Sender) (mono epoch : Float)
      → P (record { sender = sender; message = m; mono = mono; epoch = epoch })
      → is_locked_target s.target sender ≡ true
      → Vouched s
      → Vouched (take_message dialect m mono epoch s)
  unfolding take_message on_sys_status on_global_position on_attitude on_gps_raw
      on_extended_sys_state on_mission_current on_ekf_status_report on_home_position
  take_message-Vouched (heartbeat f c b st) s sender mono epoch p own v = v
  take_message-Vouched (sys_status a b c d e f) s sender mono epoch p own v = record {
    armed = v.armed;
    landed = v.landed;
    altitude = v.altitude;
  }
  take_message-Vouched (global_position_int lat lon alt rel vx vy vz hdg) s sender mono epoch p own
        v =
      record { armed = v.armed; landed = v.landed; altitude = λ x e. (_, p, ground arith, own) }
  take_message-Vouched (attitude roll pitch yaw) s sender mono epoch p own v = record {
    armed = v.armed;
    landed = v.landed;
    altitude = v.altitude;
  }
  take_message-Vouched (gps_raw_int f n) s sender mono epoch p own v = record {
    armed = v.armed;
    landed = v.landed;
    altitude = v.altitude;
  }
  take_message-Vouched (extended_sys_state n) s sender mono epoch p own v = record {
    armed = v.armed;
    landed = λ label e. (_, p, e, own, refl);
    altitude = v.altitude;
  }
  take_message-Vouched (mission_current a b c d) s sender mono epoch p own v = record {
    armed = v.armed;
    landed = v.landed;
    altitude = v.altitude;
  }
  take_message-Vouched (ekf_status_report flags variances) s sender mono epoch p own v = record {
    armed = v.armed;
    landed = v.landed;
    altitude = v.altitude;
  }
  take_message-Vouched (statustext text chunk_seq id severity) s sender mono epoch p own v =
      statustext-Vouched s text chunk_seq id severity mono v
  take_message-Vouched (home_position lat lon alt) s sender mono epoch p own v = record {
    armed = v.armed;
    landed = v.landed;
    altitude = v.altitude;
  }

  pub guard_message-Vouched :
      (a : Arrival) (s : Snapshot) → P a → Vouched s → Vouched (guard_message dialect a s)
  unfolding guard_message
  guard_message-Vouched a s p v =
      if_cases Vouched (not (is_locked_target s.target a.sender)) (λ _. v)
        (λ own. take_message-Vouched a.message s a.sender a.mono a.epoch p (ground arith) v)
