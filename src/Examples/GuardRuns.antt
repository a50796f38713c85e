-- ===== src/Examples/GuardRuns.antt =====
-- The theorems on guards, at a parked vehicle and at one that is ready to take off.
use mavctl.Guards.Mission.{check_mission_upload, exceeds_limit}
use mavctl.Prelude.{◌≡◌, ◌↔◌, refl, true, some, metres, float_le, float_lt, is_finite, is_text}
use mavctl.Guards.Decision.{default_config}
use mavctl.Guards.Ground
use mavctl.Guards.Ground.{grounded, is_above, classify_ground_state}
use mavctl.Guards.Flight.{check_takeoff, check_arm}
use mavctl.Guards.Commands.{arm, takeoff, mission_upload, check, GatesOpen}
use mavctl.Guards.Evidence.{OnGround, grounded_iff}
use mavctl.Guards.Needs.{Executes, Needs}
use mavctl.Guards.Safety.{check_iff}
use mavctl.Guards.Idempotence.{Evidence, satisfied_iff}
use mavctl.Examples.Snapshots.{parked, ready, short_mission}

grounded_iff_example :
    (classify_ground_state parked default_config ≡ grounded) ↔ OnGround parked default_config
grounded_iff_example = grounded_iff parked default_config

check_iff_example : Executes (check (mission_upload short_mission) parked true default_config) ↔ (
    GatesOpen parked true default_config
    × Needs (mission_upload short_mission) parked default_config)
check_iff_example = check_iff (mission_upload short_mission) parked true default_config

satisfied_iff_example :
    ((check arm ready true default_config).already_satisfied ≡ true)
    ↔ (GatesOpen ready true default_config × Evidence arm ready)
satisfied_iff_example = satisfied_iff arm ready true default_config

-- A parked vehicle does execute an arm command, and a ready one a takeoff.
arm-Executes : Executes (check arm parked true default_config)
unfolding check check_arm float_le
arm-Executes = (refl, refl)

takeoff-Executes : Executes (check (takeoff (metres 10)) ready true default_config)
unfolding check check_takeoff float_le is_finite float_lt is_text
takeoff-Executes = (refl, refl)

upload-Executes : Executes (check (mission_upload short_mission) parked true default_config)
unfolding check check_mission_upload float_le Ground.reject_unless_grounded classify_ground_state
    is_text is_above float_lt Ground.is_fresh_age is_finite exceeds_limit
upload-Executes = (refl, refl)

-- An old landed report beside a recent low altitude is enough; with neither recent it is not.
stale_evidence :
    classify_ground_state
      (record parked { landed_state_age_s = some (metres 9); telemetry_age_s = some (metres 9) })
      default_config
    ≡ Ground.stale
unfolding classify_ground_state is_text is_above float_lt Ground.is_fresh_age is_finite float_le
    Ground.is_at_most
stale_evidence = refl
