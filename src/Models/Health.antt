-- ===== src/Models/Health.antt =====
-- Health observations (src/mavctl/models/health.py): what the vehicle reported, with no Verdict.
use mavctl.Prelude.{ℕ, String, List, [], Option, none, Float, seconds}

-- `ESTIMATOR_STALE_AFTER_S`
abbrev pub estimator_stale_after_s : Float
estimator_stale_after_s = seconds 5

pub data EstimatorStatus : Type 0 where
  unknown observed : EstimatorStatus

pub record Variances : Type 0 where
  pub velocity_variance : Float
  pub pos_horiz_variance : Float
  pub pos_vert_variance : Float
  pub compass_variance : Float
  pub terrain_alt_variance : Float
  pub airspeed_variance : Float

-- The six variance fields are present or absent together, so they are one optional record.
pub record EstimatorObservation : Type 0 where
  pub status : EstimatorStatus
  pub last_status : Option EstimatorStatus
  pub flags : List String
  pub flags_mask : Option ℕ
  pub variances : Option Variances
  pub age_s : Option Float

pub record SensorObservation : Type 0 where
  pub present : Option ℕ
  pub enabled : Option ℕ
  pub health : Option ℕ
  pub age_s : Option Float

pub record PrearmObservation : Type 0 where
  pub last_message : Option String
  pub severity : Option ℕ
  pub age_s : Option Float

pub record HealthObservation : Type 0 where
  pub estimator : EstimatorObservation
  pub sensors : SensorObservation
  pub prearm : PrearmObservation

abbrev pub blank_estimator : EstimatorObservation
blank_estimator = record {
  status = unknown;
  last_status = none;
  flags = [];
  flags_mask = none;
  variances = none;
  age_s = none;
}

abbrev pub blank_sensors : SensorObservation
blank_sensors = record { present = none; enabled = none; health = none; age_s = none }

abbrev pub blank_prearm : PrearmObservation
blank_prearm = record { last_message = none; severity = none; age_s = none }

abbrev pub blank_health : HealthObservation
blank_health = record {
  estimator = blank_estimator;
  sensors = blank_sensors;
  prearm = blank_prearm;
}
