-- ===== src/Server/World.antt =====
-- The state of the daemon and what the handlers of src/mavctl/daemon/server.py share: `DaemonServer`
-- with its fields, the guarded part of a command, and what an accepted command waits for.
use mavctl.Prelude.{
  ℕ, Bool, true, false, not, ◌&&◌, Option, none, some, List, String, Float, scale_float, float_le,
  if◌then◌else◌, is_text,
}
use mavctl.Models.State.{VehicleState}
use mavctl.Models.Telemetry.{Telemetry}
use mavctl.Models.Command.{CommandOutcome}
use mavctl.Models.Operation.{OperationKind}
use mavctl.Guards.Decision.{GuardConfig, Action}
use mavctl.Guards.Commands.{Command, check}
use mavctl.Operations.Registry.{Registry, activate}
use mavctl.Server.Interface.{VehicleAdapter, Called, returned, raised, crashed}
use mavctl.Server.Params.{Params, Readers, flag}
use mavctl.Server.Response.{DaemonResponse}
use mavctl.Server.Replies.{not_connected, pre_execute, blocking, command_result}

-- What the daemon is made with.
pub record DaemonServer (V : Type 0) : Type 0 where
  pub adapter : VehicleAdapter V
  pub connection_string : String
  pub guard_config : GuardConfig
  pub py : Readers

-- What it changes: the vehicle, the registry of operations and the stop event.
pub record World (V : Type 0) : Type 0 where
  pub vehicle : V
  pub operations : Registry
  pub stopping : Bool

-- What a poll reads: the snapshot for the link, then the snapshot or telemetry for the goal.
-- `none` is an exception.
pub record Poll : Type 0 where
  pub link : Option VehicleState
  pub state : Option VehicleState
  pub telemetry : Option Telemetry

-- What comes from outside while a request is served: the text of a new operation's id, the three
-- clock readings of an activation and the clock of a query, and what `--wait` under the lock polls,
-- up to the deadline and after it.
pub record Outside : Type 0 where
  pub new_id : String
  pub effect_sent : Float
  pub ack : Float
  pub now : Float
  pub polls : List Poll
  pub final : Poll

-- The milestone of an accepted command.
pub data Goal : Type 0 where
  altitude_reached : Float → Goal
  disarmed mission_running : Goal

-- `rel >= alt * _TAKEOFF_REACHED_FRACTION`, exactly.
unfoldable pub has_reached : Float → Option Float → Bool
unfolding scale_float float_le
has_reached altitude none = false
has_reached altitude (some rel) = float_le (scale_float altitude 95) (scale_float rel 100)

abbrev is_disarmed : Option Bool → Bool
is_disarmed (some false) = true
is_disarmed _ = false

-- The predicates that the handlers give to the observers; `none` is an exception.
unfoldable pub meets : Goal → Poll → Option Bool
unfolding has_reached is_text
meets (altitude_reached altitude) poll = elim poll.telemetry [
  | none ↦ none
  | some telemetry ↦ some (has_reached altitude telemetry.position.relative_alt_m)
]
meets disarmed poll = elim poll.state [ none ↦ none | some state ↦ some (is_disarmed state.armed) ]
meets mission_running poll = elim poll.state [
  | none ↦ none
  | some state ↦ some (is_text state.mission.state "active" && is_text state.flight_mode "AUTO")
]

-- An accepted command whose operation is at `address`, with the timeout of `--wait` if it is set.
pub record Started : Type 0 where
  pub action : Action
  pub outcome : CommandOutcome
  pub address : ℕ
  pub goal : Goal
  pub wait : Option Float

-- How the part of a handler ends that is run under `_command_lock`.
pub data Handled : Type 0 where
  answered : DaemonResponse → Handled
  escaped : Handled
  started : Started → Handled

-- The timeout of a `--wait` that is set.
unfoldable pub wanted : Params → Float → Option Float
unfolding flag
wanted p timeout = if flag "wait" p then some timeout else none

module _ {V : Type 0} where
  unfoldable pub answer_or :
      Option DaemonResponse → World V → (World V → Handled × World V) → Handled × World V
  answer_or none w run = run w
  answer_or (some response) w run = (answered response, w)

  -- The snapshot, the guard and `_pre_execute`, and what is run behind them.
  unfoldable pub guarded :
      DaemonServer V
      → Command
      → Params
      → World V
      → (World V → Handled × World V)
      → Handled × World V
  unfolding flag not_connected pre_execute answer_or
  guarded self c p w run =
      let state = self.adapter.get_state w.vehicle in
      if not state.connected
      then (answered (not_connected self.connection_string), w)
      else answer_or
          (pre_execute (check c state (flag "confirm" p) self.guard_config) (flag "dry_run" p)) w
          run

  -- A verb in the executor: its end and the vehicle behind it.
  unfoldable pub call_verb :
      {A : Type 0}
      → (V → Called A × V)
      → World V
      → (Called A → World V → Handled × World V)
      → Handled × World V
  call_verb verb w next = next (verb w.vehicle).0 (record w { vehicle = (verb w.vehicle).1 })

  -- `return self._command_result(action, outcome)` for a verb's end
  unfoldable pub report_result : Action → Called CommandOutcome → World V → Handled × World V
  unfolding blocking command_result
  report_result action called w = elim (blocking called) [
    | returned outcome ↦ (answered (command_result action outcome none none), w)
    | raised _ ↦ (escaped, w)
    | crashed ↦ (escaped, w)
  ]

  -- The operation of an accepted command.
  unfoldable pub begin_operation :
      Action
      → OperationKind
      → Goal
      → Option Float
      → Outside
      → CommandOutcome
      → World V
      → Handled × World V
  unfolding activate
  begin_operation action kind goal wait x outcome w =
      let (operations, address) = activate kind x.effect_sent x.ack x.now x.new_id w.operations in
      (
        started (record {
          action = action;
          outcome = outcome;
          address = address;
          goal = goal;
          wait = wait;
        }),
        record w { operations = operations },
      )

  -- The end of a verb whose acceptance starts an operation.
  unfoldable pub begin_accepted :
      Action
      → OperationKind
      → Goal
      → Option Float
      → Outside
      → Called CommandOutcome
      → World V
      → Handled × World V
  unfolding blocking command_result begin_operation
  begin_accepted action kind goal wait x called w = elim (blocking called) [
    | returned outcome ↦
        if not outcome.accepted
        then (answered (command_result action outcome none none), w)
        else begin_operation action kind goal wait x outcome w
    | raised _ ↦ (escaped, w)
    | crashed ↦ (escaped, w)
  ]
