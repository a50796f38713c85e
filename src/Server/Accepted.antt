-- ===== src/Server/Accepted.antt =====
-- When a handler starts an operation: what the vehicle answered, and what the registry gets.
use mavctl.Prelude.{◌≡◌, refl, not, true, Option, Float, if_cases, arith}
use mavctl.Models.Command.{CommandOutcome, adapter_failure}
use mavctl.Models.Operation.{OperationKind}
use mavctl.Guards.Decision.{Action}
use mavctl.Guards.Commands.{Command, takeoff, land, rtl, mission_start}
use mavctl.Operations.Registry.{Registry, activate}
use mavctl.Server.Interface.{VehicleAdapter, Called, returned, raised, crashed, connection_lost}
use mavctl.Server.Params.{RpcRequest}
use mavctl.Server.Response.{DaemonResponse}
use mavctl.Server.World.{
  DaemonServer, World, Outside, Goal, altitude_reached, disarmed, mission_running, Handled, Started,
  answered, escaped, started, report_result, begin_operation, begin_accepted,
}
use mavctl.Server.Sent.{Sent}

module _ {V : Type 0} where
  -- What the vehicle answered to a command that starts an operation, and the operation's kind and
  -- milestone.
  abbrev pub Starts :
      VehicleAdapter V → Command → V → OperationKind → Goal → Called CommandOutcome → Type 0
  Starts adapter (takeoff altitude) v kind goal called =
      (kind ≡ OperationKind.takeoff)
      × (goal ≡ altitude_reached altitude)
      × ((adapter.takeoff altitude v).0 ≡ called)
  Starts adapter land v kind goal called =
      (kind ≡ OperationKind.land) × (goal ≡ disarmed) × ((adapter.land v).0 ≡ called)
  Starts adapter rtl v kind goal called =
      (kind ≡ OperationKind.rtl) × (goal ≡ disarmed) × ((adapter.rtl v).0 ≡ called)
  Starts adapter (mission_start count) v kind goal called =
      (kind ≡ OperationKind.mission_start)
      × (goal ≡ mission_running)
      × ((adapter.start_mission (adapter.get_mission_count v).1).0 ≡ called)
  Starts adapter _ v kind goal called = ⊥

  -- The command was sent as the request asks and the guards allow, the vehicle accepted it, and the
  -- registry has a new operation at `address`.
  pub record Accepted (self : DaemonServer V) (x : Outside) (q : RpcRequest) (w : World V)
      (t : Started) (operations : Registry) : Type 0 where
    pub command : Command
    pub kind : OperationKind
    pub sent : Sent self q w.vehicle command
    pub answer : Starts self.adapter command w.vehicle kind t.goal (returned t.outcome)
    pub accepted : t.outcome.accepted ≡ true
    pub registered :
        activate kind x.effect_sent x.ack x.now x.new_id w.operations ≡ (operations, t.address)

  -- An answer leaves the registry as it is.
  abbrev pub Tracks : DaemonServer V → Outside → RpcRequest → World V → Handled × World V → Type 0
  Tracks self x q w (started t, s) = Accepted self x q w t s.operations
  Tracks self x q w (_, s) = s.operations ≡ w.operations

  -- What follows a verb only answers.
  abbrev pub Silent : {A : Type 0} → (Called A → World V → Handled × World V) → Type 1
  Silent {A} next =
      (P : Handled × World V → Type 0) (a : Called A) (w : World V)
      → ((response : DaemonResponse) → P (answered response, w))
      → P (escaped, w)
      → P (next a w)

  pub report_result-Silent : (action : Action) → Silent (report_result action)
  unfolding report_result
  report_result-Silent action P (returned outcome) w answers escapes = answers _
  report_result-Silent action P (raised connection_lost) w answers escapes = answers _
  report_result-Silent action P (raised error) w answers escapes = escapes
  report_result-Silent action P crashed w answers escapes = escapes

  pub begin_accepted_cases :
      (P : Handled × World V → Type 0) (action : Action) (kind : OperationKind) (goal : Goal)
      (wait : Option Float) (x : Outside) (called : Called CommandOutcome) (w : World V)
      → ((response : DaemonResponse) → P (answered response, w))
      → P (escaped, w)
      → ((outcome : CommandOutcome)
          → called ≡ returned outcome
          → outcome.accepted ≡ true
          → P (begin_operation action kind goal wait x outcome w))
      → P (begin_accepted action kind goal wait x called w)
  unfolding begin_accepted adapter_failure
  begin_accepted_cases P action kind goal wait x (returned outcome) w answers escapes begins =
      if_cases P (not outcome.accepted) (λ _. answers _) (λ h. begins outcome refl (ground arith))
  begin_accepted_cases P action kind goal wait x (raised connection_lost) w answers escapes begins =
      answers _
  begin_accepted_cases P action kind goal wait x (raised error) w answers escapes begins = escapes
  begin_accepted_cases P action kind goal wait x crashed w answers escapes begins = escapes
