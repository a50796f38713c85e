-- ===== src/Guards/Evidence.antt =====
-- The ground evidence, read as facts about the snapshot.
use mavctl.Prelude.{
  ◌≡◌, ◌≢◌, ◌↔◌, ◌⊎◌, true, false, Option, none, some, Float, Within, zero_float, float_le,
  float_lt, is_finite, is_text_iff, arith,
}
use mavctl.Models.State.{VehicleState}
use mavctl.Guards.Decision.{GuardConfig}
use mavctl.Guards.Ground.{grounded, is_fresh_age, is_above, is_at_most, classify_ground_state}

-- An age that can be trusted: received, finite, not negative and within the limit.
abbrev pub Recent : Option Float → Float → Type 0
Recent none limit = ⊥
Recent (some age) limit =
    (is_finite age ≡ true) × (float_lt age zero_float ≡ false) × (float_le age limit ≡ true)

is_fresh_age_iff :
    (age : Option Float) (limit : Float) → (is_fresh_age age limit ≡ true) ↔ Recent age limit
unfolding is_fresh_age
is_fresh_age_iff none limit = ground arith
is_fresh_age_iff (some age) limit = ground arith

-- Evidence of ground contact that is recent enough: a landed report, or a low altitude.
abbrev pub FreshGround : VehicleState → GuardConfig → Type 0
FreshGround state config =
    ((state.landed_state ≡ some "on_ground")
      × Recent state.landed_state_age_s config.max_ground_evidence_age_s)
    ⊎ (Within state.relative_alt_m config.max_on_ground_alt_m
        × Recent state.telemetry_age_s config.max_ground_evidence_age_s)

-- On the ground: no evidence of flight, recent or not, and recent evidence of ground contact.
pub record OnGround (state : VehicleState) (config : GuardConfig) : Type 0 where
  pub not_flying : state.landed_state ≢ some "in_air"
  pub not_high : is_above state.relative_alt_m config.airborne_alt_threshold_m ≡ false
  pub contact : FreshGround state config

-- The classification answers "grounded" exactly when there is no evidence of flight, however
-- old, and there is ground evidence that is recent: an age that was received, is finite, not
-- negative and within the limit.
pub grounded_iff :
    (state : VehicleState) (config : GuardConfig)
    → (classify_ground_state state config ≡ grounded) ↔ OnGround state config
unfolding classify_ground_state is_at_most
grounded_iff state config = ground (
  arith,
  is_text_iff state.landed_state "in_air",
  is_text_iff state.landed_state "on_ground",
  is_fresh_age_iff state.landed_state_age_s config.max_ground_evidence_age_s,
  is_fresh_age_iff state.telemetry_age_s config.max_ground_evidence_age_s,
)
