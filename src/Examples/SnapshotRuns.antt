-- ===== src/Examples/SnapshotRuns.antt =====
-- The theorems on the snapshot, over the first messages of an armed vehicle that stands on the
-- ground, with a stranger between them.
use mathlib.Core.List.{Mem}
use mavctl.Prelude.{
  ◌≡◌, ◌≢◌, refl, Bool, true, Option, none, some, List, [], ◌∷◌, String, Float, pos, finite,
  seconds, metres, float_le, float_lt, float_sub, round_thousandths, is_finite, is_text, ◌-ℤ◌,
  scale,
}
use mavctl.Guards.Decision.{default_config}
use mavctl.Guards.Ground.{
  grounded, stale, classify_ground_state, is_above, is_at_most, is_fresh_age,
}
use mavctl.Guards.Commands.{takeoff, check}
use mavctl.Guards.Needs.{Executes}
use mavctl.Guards.Flight.{check_takeoff}
use mavctl.Adapter.Link.{Sender, is_locked_target}
use mavctl.Adapter.Dialect.{Dialect, heartbeat, extended_sys_state, global_position_int}
use mavctl.Adapter.Snapshot.{Arrival, Snapshot, empty_snapshot}
use mavctl.Adapter.Handlers.{on_attitude, handle_all}
use mavctl.Adapter.Observation.{get_state}
use mavctl.Adapter.Vouched.{SaysArmed, SaysLanded, SaysAltitude}
use mavctl.Adapter.Told.{get_state-told, Executes-told, on_attitude-refreshes_ground}

abbrev dialect : Dialect
dialect = record {
  autopilot = 1;
  safety_armed = 128;
  ekf_flag_name = λ bit. none;
  numbered = λ prefix n. prefix;
  mode_text = λ n. "mode";
  degrees = λ x. x;
  hypot = λ x y. x;
}

abbrev vehicle : Sender
vehicle = record { system = 1; component = 1 }

abbrev stranger : Sender
stranger = record { system = 7; component = 1 }

-- A position 0.1 m above home, an armed heartbeat, a stranger's disarmed one, and the position and
-- the landed state after the lock.
abbrev arrivals : List Arrival
arrivals =
    record { sender = vehicle; message = extended_sys_state 2; mono = seconds 1; epoch = seconds 1 }
    ∷ record {
      sender = vehicle;
      message = heartbeat (some "GUIDED") 4 209 4;
      mono = seconds 2;
      epoch = seconds 2;
    }
    ∷ record {
      sender = stranger;
      message = heartbeat (some "LOITER") 5 81 3;
      mono = seconds 3;
      epoch = seconds 3;
    }
    ∷ record {
      sender = vehicle;
      message =
          global_position_int (pos 474000000) (pos 85000000) (pos 500000) (pos 100) (pos 0) (pos 0)
            (pos 0) 9000;
      mono = seconds 3;
      epoch = seconds 3;
    }
    ∷ record {
      sender = vehicle;
      message = extended_sys_state 1;
      mono = seconds 4;
      epoch = seconds 4;
    }
    ∷ []

abbrev arrived : Snapshot
arrived = handle_all dialect arrivals empty_snapshot

get_state-told_example :
    let state = get_state "udp" (seconds 5) (seconds 5) (seconds 5) arrived in
    ((b : Bool)
      → state.armed ≡ some b
      → (a : Arrival) × Mem a arrivals
        × SaysArmed dialect a.message b
        × (is_locked_target arrived.target a.sender ≡ true)
        × (float_le (float_sub (seconds 5) a.mono) (seconds 5) ≡ true))
    × ((label : String)
        → state.landed_state ≡ some label
        → (a : Arrival) × Mem a arrivals
          × SaysLanded a.message label
          × (is_locked_target arrived.target a.sender ≡ true)
          × (state.landed_state_age_s ≡ some (round_thousandths (float_sub (seconds 5) a.mono))))
    × ((x : Float)
        → state.relative_alt_m ≡ some x
        → (a : Arrival) × Mem a arrivals
          × SaysAltitude a.message x
          × (is_locked_target arrived.target a.sender ≡ true))
get_state-told_example = get_state-told dialect "udp" (seconds 5) (seconds 5) (seconds 5) arrivals

-- What the daemon is told of them.
told :
    let state = get_state "udp" (seconds 5) (seconds 5) (seconds 5) arrived in
    (state.armed ≡ some true)
    × (state.landed_state ≡ some "on_ground")
    × (state.flight_mode ≡ some "GUIDED")
    × (state.relative_alt_m ≡ some (finite (pos 100000000)))
unfolding get_state handle_all empty_snapshot ◌-ℤ◌ scale
told = (refl, refl, refl, refl)

goes : Executes (
    check
      (takeoff (metres 10))
      (get_state "udp" (seconds 5) (seconds 5) (seconds 5) arrived)
      true
      default_config)
unfolding check check_takeoff float_le is_finite float_lt is_text get_state handle_all
    empty_snapshot ◌-ℤ◌
goes = (refl, refl)

Executes-told_example :
    (a : Arrival) × Mem a arrivals
    × SaysArmed dialect a.message true
    × (is_locked_target arrived.target a.sender ≡ true)
    × (float_le (float_sub (seconds 5) a.mono) (seconds 5) ≡ true)
Executes-told_example =
    Executes-told dialect "udp" (seconds 5) (seconds 5) (seconds 5) arrivals (takeoff (metres 10))
      true default_config true refl goes

-- A minute later, with the position of the first seconds: stale, until an attitude message comes.
abbrev level : Float
level = finite (pos 0)

long_ago :
    classify_ground_state
      (get_state "udp" (seconds 5) (seconds 60) (seconds 60) arrived)
      default_config
    ≡ stale
unfolding classify_ground_state get_state handle_all empty_snapshot is_text ◌-ℤ◌ is_above float_lt
    scale is_at_most is_fresh_age is_finite
long_ago = refl

not_some : (x : Option String) (label : String) → x ≡ none → x ≢ some label
not_some x label nothing e = cc (nothing, e)

out_of_touch : (get_state "udp" (seconds 5) (seconds 60) (seconds 60) arrived).landed_state ≡ none
unfolding get_state handle_all empty_snapshot ◌-ℤ◌
out_of_touch = refl

on_attitude-refreshes_ground_example :
    classify_ground_state
      (get_state "udp"
        (seconds 5)
        (seconds 60)
        (seconds 60)
        (on_attitude dialect level level level (seconds 59) (seconds 59) arrived))
      default_config
    ≡ grounded
unfolding get_state handle_all empty_snapshot is_above float_lt scale float_le is_finite ◌-ℤ◌
    round_thousandths float_sub
on_attitude-refreshes_ground_example =
    on_attitude-refreshes_ground dialect "udp" (seconds 5) (seconds 60) (seconds 60) default_config
      arrived level level level (seconds 59) (seconds 59) (not_some _ _ out_of_touch) refl refl
      (refl, refl, refl)
