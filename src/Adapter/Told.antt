-- ===== src/Adapter/Told.antt =====
-- What the daemon is told: `get_state` over any history of messages.
use mathlib.Core.List.{Mem, mem-cons_self, mem-cons_of_mem}
use mavctl.Prelude.{
  ◌≡◌, ◌≢◌, ap, ◌∙◌, inr, Bool, true, false, Option, none, some, List, [], ◌∷◌, String, Float,
  float_le, float_sub, round_thousandths, All, arith, Within,
}
use mavctl.Models.State.{VehicleState}
use mavctl.Guards.Decision.{GuardConfig}
use mavctl.Guards.Commands.{
  Command, arm, land, rtl, mission_clear, disarm, mode, takeoff, mission_upload, mission_start,
  check,
}
use mavctl.Guards.Needs.{Executes, Needs}
use mavctl.Guards.Safety.{check_iff}
use mavctl.Guards.Ground.{grounded, is_above, classify_ground_state}
use mavctl.Guards.Evidence.{Recent, grounded_iff}
use mavctl.Adapter.Link.{is_locked_target}
use mavctl.Adapter.Dialect.{Dialect}
use mavctl.Adapter.Snapshot.{Arrival, Snapshot, empty_snapshot}
use mavctl.Adapter.Handlers.{on_attitude, handle_all}
use mavctl.Adapter.Observation.{age_of, heartbeat_age, is_connected, get_state}
use mavctl.Adapter.Vouched.{SaysArmed, SaysLanded, SaysAltitude, Vouched, empty-Vouched}
use mavctl.Adapter.VouchedRuns.{run-Vouched}

All-Mem_more :
    (first : Arrival) (arrivals some_ : List Arrival)
    → All (λ a. Mem a arrivals) some_
    → All (λ a. Mem a (first ∷ arrivals)) some_
All-Mem_more first arrivals [] h = tt
All-Mem_more first arrivals (a ∷ rest) (m, ms) =
    (mem-cons_of_mem first m, All-Mem_more first arrivals rest ms)

All-Mem : (arrivals : List Arrival) → All (λ a. Mem a arrivals) arrivals
All-Mem [] = tt
All-Mem (a ∷ rest) = (mem-cons_self, All-Mem_more a rest rest (All-Mem rest))

-- What a snapshot's fields say once the link is up, and nothing while it is down.
told_armed :
    (connection : String) (timeout now later : Float) (s : Snapshot) (b : Bool)
    → (get_state connection timeout now later s).armed ≡ some b
    → (s.armed ≡ some b) × (is_connected timeout (heartbeat_age later s.last_hb_monotonic) ≡ true)
unfolding get_state
told_armed connection timeout now later s b e = ground arith

told_landed :
    (connection : String) (timeout now later : Float) (s : Snapshot) (label : String)
    → (get_state connection timeout now later s).landed_state ≡ some label
    → s.landed_state ≡ some label
unfolding get_state
told_landed connection timeout now later s label e = ground arith

recent :
    (timeout later mono : Float) (last : Option Float)
    → last ≡ some mono
    → is_connected timeout (heartbeat_age later last) ≡ true
    → float_le (float_sub later mono) timeout ≡ true
unfolding is_connected heartbeat_age
recent timeout later mono last e h = ground arith

-- Whatever arrived since the start, from whomever: when the daemon is told that the vehicle is armed
-- or disarmed, one autopilot said so in a heartbeat no older than the time-out; a landed state was
-- reported by a message whose age is the one that the daemon is told; an altitude was reported.
pub get_state-told :
    (dialect : Dialect) (connection : String) (timeout now later : Float) (arrivals : List Arrival)
    → let s = handle_all dialect arrivals empty_snapshot in
      let state = get_state connection timeout now later s in
      ((b : Bool)
        → state.armed ≡ some b
        → (a : Arrival) × Mem a arrivals
          × SaysArmed dialect a.message b
          × (is_locked_target s.target a.sender ≡ true)
          × (float_le (float_sub later a.mono) timeout ≡ true))
      × ((label : String)
          → state.landed_state ≡ some label
          → (a : Arrival) × Mem a arrivals
            × SaysLanded a.message label
            × (is_locked_target s.target a.sender ≡ true)
            × (state.landed_state_age_s ≡ some (round_thousandths (float_sub now a.mono))))
      × ((x : Float)
          → state.relative_alt_m ≡ some x
          → (a : Arrival) × Mem a arrivals
            × SaysAltitude a.message x
            × (is_locked_target s.target a.sender ≡ true))
unfolding get_state age_of
get_state-told dialect connection timeout now later arrivals =
    let s : Snapshot = handle_all dialect arrivals empty_snapshot in
    let v : Vouched dialect (λ a. Mem a arrivals) s =
      run-Vouched dialect (λ a. Mem a arrivals) arrivals empty_snapshot (All-Mem arrivals)
        (empty-Vouched dialect (λ a. Mem a arrivals)) in
    (
      λ b e.
          let (said, up) = told_armed connection timeout now later s b e in
          let (a, came, says, own, last) = v.armed b said in
          (a, came, says, own, recent timeout later a.mono s.last_hb_monotonic last up),
      λ label e.
          let said = told_landed connection timeout now later s label e in
          let (a, came, says, own, last) = v.landed label said in
          (a, came, says, own, ap (age_of now) last),
      λ x e. v.altitude x e,
    )

-- What a command needs to know of the armed flag.
abbrev pub needed_flag : Command → Option Bool
needed_flag (takeoff altitude) = some true
needed_flag (mission_start count) = some true
needed_flag (mission_upload mission) = some false
needed_flag mission_clear = some false
needed_flag _ = none

Needs-flag :
    (c : Command) (state : VehicleState) (config : GuardConfig) (b : Bool)
    → needed_flag c ≡ some b
    → Needs c state config
    → state.armed ≡ some b
Needs-flag (takeoff altitude) state config b e h = h.4 ∙ e
Needs-flag (mission_start count) state config b e h = h.1 ∙ e
Needs-flag (mission_upload mission) state config b e h = h.0 ∙ e
Needs-flag mission_clear state config b e h = h.0 ∙ e
Needs-flag arm state config b e h = cc e
Needs-flag land state config b e h = cc e
Needs-flag rtl state config b e h = cc e
Needs-flag (disarm force) state config b e h = cc e
Needs-flag (mode name available) state config b e h = cc e

-- From the wire to the guard: a takeoff or a mission start is let through only if the autopilot said
-- in a heartbeat, no older than the link's time-out, that it is armed, and a mission upload or clear
-- only if it said so that it is disarmed.
pub Executes-told :
    (dialect : Dialect) (connection : String) (timeout now later : Float) (arrivals : List Arrival)
    (c : Command) (confirmed : Bool) (config : GuardConfig) (b : Bool)
    → needed_flag c ≡ some b
    → let s = handle_all dialect arrivals empty_snapshot in
      Executes (check c (get_state connection timeout now later s) confirmed config)
      → (a : Arrival) × Mem a arrivals
        × SaysArmed dialect a.message b
        × (is_locked_target s.target a.sender ≡ true)
        × (float_le (float_sub later a.mono) timeout ≡ true)
Executes-told dialect connection timeout now later arrivals c confirmed config b e goes =
    let s : Snapshot = handle_all dialect arrivals empty_snapshot in
    let state : VehicleState = get_state connection timeout now later s in
    let needs : Needs c state config = ((check_iff c state confirmed config).0 goes).1 in
    (get_state-told dialect connection timeout now later arrivals).0 b
      (Needs-flag c state config b e needs)

-- An attitude message makes an old altitude count as current: over a snapshot without evidence of
-- flight and with a low altitude, received however long ago, a recent attitude message alone makes
-- the guards' classification "grounded".
pub on_attitude-refreshes_ground :
    (dialect : Dialect) (connection : String) (timeout now later : Float) (config : GuardConfig)
    (s : Snapshot) (roll pitch yaw mono epoch : Float)
    → (get_state connection timeout now later s).landed_state ≢ some "in_air"
    → is_above s.relative_alt_m config.airborne_alt_threshold_m ≡ false
    → Within s.relative_alt_m config.max_on_ground_alt_m
    → Recent (some (round_thousandths (float_sub now mono))) config.max_ground_evidence_age_s
    → classify_ground_state
        (get_state connection timeout now later (on_attitude dialect roll pitch yaw mono epoch s))
        config
      ≡ grounded
unfolding get_state on_attitude age_of
on_attitude-refreshes_ground dialect connection timeout now later config s roll pitch yaw mono epoch
      down not_high low recent_message =
    (grounded_iff _ config).1
      (record { not_flying = down; not_high = not_high; contact = inr (low, recent_message) })
