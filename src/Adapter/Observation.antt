-- ===== src/Adapter/Observation.antt =====
-- `get_state` and `get_telemetry` of src/mavctl/adapter/pymavlink_adapter.py: what the daemon is
-- told of the snapshot.
use mathlib.Core.Option
use mavctl.Prelude.{
  Bool, false, Option, none, some, String, Float, float_le, float_sub, round_thousandths,
  if◌then◌else◌,
}
use mavctl.Models.Health.{
  EstimatorObservation, SensorObservation, PrearmObservation, unknown, observed,
  estimator_stale_after_s, blank_estimator, blank_sensors, blank_prearm,
}
use mavctl.Models.State.{VehicleState, blank_execution}
use mavctl.Models.Telemetry.{Telemetry}
use mavctl.Adapter.Snapshot.{Snapshot}

-- `_age`, at the clock reading `now`
unfoldable pub age_of : Float → Option Float → Option Float
unfolding round_thousandths float_sub
age_of now none = none
age_of now (some ts_mono) = some (round_thousandths (float_sub now ts_mono))

-- `_heartbeat_age_locked`
unfoldable pub heartbeat_age : Float → Option Float → Option Float
unfolding float_sub
heartbeat_age now none = none
heartbeat_age now (some last_hb_monotonic) = some (float_sub now last_hb_monotonic)

-- `connected = age is not None and age <= self._heartbeat_timeout_s`
unfoldable pub is_connected : Float → Option Float → Bool
unfolding float_le
is_connected timeout none = false
is_connected timeout (some age) = float_le age timeout

unfoldable pub observe_estimator : Float → Snapshot → EstimatorObservation
unfolding age_of float_le
observe_estimator now s = elim s.ekf_ts_mono [
  | none ↦ blank_estimator
  | some ts_mono ↦
      let age = age_of now (some ts_mono) in
      record {
        status = elim age [
          | none ↦ unknown
          | some a ↦ if float_le a estimator_stale_after_s then observed else unknown
        ];
        last_status = some observed;
        flags = s.ekf_flags_names;
        flags_mask = s.ekf_flags_mask;
        variances = s.ekf_variances;
        age_s = age;
      }
]

unfoldable pub observe_sensors : Float → Snapshot → SensorObservation
unfolding age_of
observe_sensors now s = elim s.sensors_ts_mono [
  | none ↦ blank_sensors
  | some ts_mono ↦ record {
    present = s.sensors_present;
    enabled = s.sensors_enabled;
    health = s.sensors_health;
    age_s = age_of now (some ts_mono);
  }
]

unfoldable pub observe_prearm : Float → Snapshot → PrearmObservation
unfolding age_of
observe_prearm now s = elim s.prearm_ts_mono [
  | none ↦ blank_prearm
  | some ts_mono ↦ record {
    last_message = s.prearm_last_message;
    severity = s.prearm_severity;
    age_s = age_of now (some ts_mono);
  }
]

-- `value if connected else None`
abbrev pub if_connected {ℓ} : {A : Type ℓ} → Bool → Option A → Option A
if_connected connected value = if connected then value else none

-- `get_state`; `now` and `later` are its two clock readings.
unfoldable pub get_state : String → Float → Float → Float → Snapshot → VehicleState
unfolding heartbeat_age is_connected age_of observe_estimator observe_sensors observe_prearm
    round_thousandths
get_state connection_string timeout now later s =
    let age = heartbeat_age later s.last_hb_monotonic in
    let connected = is_connected timeout age in
    record {
      connected = connected;
      connection_string = some connection_string;
      system_id = s.system_id;
      component_id = s.component_id;
      last_heartbeat_ts = s.last_hb_epoch;
      heartbeat_age_s = Option.map round_thousandths age;
      flight_mode = if_connected connected s.flight_mode;
      armed = if_connected connected s.armed;
      system_status = if_connected connected s.system_status;
      landed_state = if_connected connected s.landed_state;
      relative_alt_m = s.relative_alt_m;
      battery = s.battery;
      gps = s.gps;
      home_position = s.home;
      telemetry_age_s = age_of now s.telemetry_ts_mono;
      gps_age_s = age_of now s.gps_ts_mono;
      battery_age_s = age_of now s.battery_ts_mono;
      home_position_age_s = age_of now s.home_ts_mono;
      landed_state_age_s = age_of now s.landed_state_ts_mono;
      mission = elim s.mission_execution [
        | none ↦ blank_execution
        | some execution ↦ record execution { age_s = age_of now s.mission_execution_ts_mono }
      ];
      health = record {
        estimator = observe_estimator now s;
        sensors = observe_sensors now s;
        prearm = observe_prearm now s;
      };
    }

-- `get_telemetry`
unfoldable pub get_telemetry : Snapshot → Telemetry
get_telemetry s = record {
  timestamp = s.telemetry_ts;
  position = s.position;
  attitude = s.attitude;
  velocity = s.velocity;
}
