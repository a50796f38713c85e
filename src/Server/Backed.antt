-- ===== src/Server/Backed.antt =====
-- What stands behind an answer: a success tells what the vehicle did or what it reported.
use mathlib.Core.Path.{subst}
use mavctl.Prelude.{
  ◌≡◌, ◌≢◌, refl, not, Bool, true, false, Option, none, some, String, if_cases, option_cases, arith,
}
use mavctl.Models.Command.{CommandOutcome, WaitStatus, not_waited, reached, timed_out, link_lost}
use mavctl.Models.Mission.{MissionOutcome}
use mavctl.Models.Operation.{OperationKind}
use mavctl.Models.Operation.{OperationState}
use mavctl.Models.Operation
use mavctl.Models.Protocol.{ExitCode}
use mavctl.Models.Protocol
use mavctl.Guards.Coherence.{check-fails}
use mavctl.Operations.Registry.{Registry}
use mavctl.Operations.Registry
use mavctl.Guards.Decision.{Action, GuardDecision}
use mavctl.Guards.Commands.{Command, check}
use mavctl.Guards.Commands
use mavctl.Server.Interface.{VehicleAdapter, returned}
use mavctl.Server.Params.{RpcRequest, flag}
use mavctl.Server.Response.{
  Detail, rejected, DaemonResponse, success, failure, executed, mission_outcome, downloaded,
  vehicle_state, telemetry, nothing_to_do, dry_run, already_running, pong, stopping, operation,
}
use mavctl.Server.Replies.{pre_execute, command_result, finish_wait, finish_operation_wait}
use mavctl.Server.World.{DaemonServer, World, Handled, Started, answered, escaped, started}
use mavctl.Server.Connection.{answer_started}
use mavctl.Server.Sent.{Sent, Asked}

module _ {V : Type 0} where
  -- The verb of a flight command ended with this outcome.
  abbrev pub Ended : VehicleAdapter V → Command → V → CommandOutcome → Type 0
  Ended adapter Commands.arm v outcome = (adapter.arm v).0 ≡ returned outcome
  Ended adapter (Commands.disarm force) v outcome = (adapter.disarm force v).0 ≡ returned outcome
  Ended adapter (Commands.mode name available) v outcome =
      (adapter.set_mode name v).0 ≡ returned outcome
  Ended adapter (Commands.takeoff altitude) v outcome =
      (adapter.takeoff altitude v).0 ≡ returned outcome
  Ended adapter Commands.land v outcome = (adapter.land v).0 ≡ returned outcome
  Ended adapter Commands.rtl v outcome = (adapter.rtl v).0 ≡ returned outcome
  Ended adapter (Commands.mission_start count) v outcome =
      (adapter.start_mission (adapter.get_mission_count v).1).0 ≡ returned outcome
  Ended adapter _ v outcome = ⊥

  -- The transaction of a mission command ended with this outcome.
  abbrev pub Transacted : VehicleAdapter V → Command → V → MissionOutcome → Type 0
  Transacted adapter (Commands.mission_upload mission) v outcome =
      (adapter.upload_mission mission v).0 ≡ returned outcome
  Transacted adapter Commands.mission_clear v outcome =
      (adapter.clear_mission v).0 ≡ returned outcome
  Transacted adapter _ v outcome = ⊥

  -- The request asks for a command whose goal the vehicle has reached.
  abbrev pub Needless : DaemonServer V → RpcRequest → V → Type 0
  Needless self q v =
      (c : Command) × Asked self q v c
      × ((check c (self.adapter.get_state v) (flag "confirm" q.params)
            self.guard_config).already_satisfied
          ≡ true)

  -- What stands behind a response. A failure has a code of its own.
  abbrev pub Backed : DaemonServer V → RpcRequest → V → DaemonResponse → Type 0
  Backed self q v (success (executed action outcome waited operation_id)) =
      (c : Command) × Sent self q v c × Ended self.adapter c v outcome × (outcome.accepted ≡ true)
  Backed self q v (success (mission_outcome outcome)) =
      (c : Command) × Sent self q v c × Transacted self.adapter c v outcome
  Backed self q v (success (downloaded mission)) =
      (q.method ≡ "mission_download") × ((self.adapter.download_mission v).0 ≡ returned mission)
  Backed self q v (success (vehicle_state state)) =
      (q.method ≡ "status") × (state ≡ self.adapter.get_state v)
  Backed self q v (success (telemetry t)) =
      (q.method ≡ "telemetry") × (t ≡ self.adapter.get_telemetry v)
  Backed self q v (success (nothing_to_do action)) = Needless self q v
  Backed self q v (success already_running) = Needless self q v
  Backed self q v (success (dry_run action would satisfied checks)) =
      (c : Command) × Asked self q v c × (flag "dry_run" q.params ≡ true)
  Backed self q v (success (pong connection_string)) = q.method ≡ "ping"
  Backed self q v (success stopping) = q.method ≡ "shutdown"
  Backed self q v (success (operation found)) = q.method ≡ "operation_get"
  Backed self q v (failure Protocol.success detail) = ⊥
  Backed self q v (failure code detail) = Unit {0}

module _ {V : Type 0} (self : DaemonServer V) (q : RpcRequest) (v : V) where
  -- A part of a handler's end is backed; what is started is another matter.
  abbrev pub Answers : Handled × World V → Type 0
  Answers (answered response, w) = Backed self q v response
  Answers (escaped, w) = Unit {0}
  Answers (started t, w) = Unit {0}

  pub command_result-Backed :
      (c : Command) (action : Action) (outcome : CommandOutcome) (waited : Option Bool)
      (operation_id : Option String)
      → Sent self q v c
      → Ended self.adapter c v outcome
      → Backed self q v (command_result action outcome waited operation_id)
  unfolding command_result
  command_result-Backed c action outcome waited operation_id sent ended =
      if_cases (Backed self q v) (not outcome.accepted) (λ _. tt)
        (λ good. (c, sent, ended, ground arith))

  -- At every state of the operation.
  waited-Backed :
      (c : Command) (action : Action) (outcome : CommandOutcome) (begun : Registry.Operation)
      (state : OperationState)
      → Sent self q v c
      → Ended self.adapter c v outcome
      → Backed self q v (finish_operation_wait action outcome (record begun { state = state }))
  unfolding finish_operation_wait
  waited-Backed c action outcome begun Operation.reached sent ended =
      command_result-Backed c action outcome (some true) (some begun.operation_id) sent ended
  waited-Backed c action outcome begun _ sent ended = tt

  pub answer_started-Backed :
      (c : Command) (t : Started) (r : Registry)
      → Sent self q v c
      → Ended self.adapter c v t.outcome
      → Backed self q v (answer_started t r)
  unfolding answer_started
  answer_started-Backed c t r sent ended =
      option_cases (Backed self q v) t.wait
        (λ _. command_result-Backed c t.action t.outcome none _ sent ended)
        (λ timeout _.
          waited-Backed c t.action t.outcome (r.heap t.address) (r.heap t.address).state sent ended)

  pub finish_wait-Backed :
      (c : Command) (action : Action) (outcome : CommandOutcome) (status : WaitStatus)
      → Sent self q v c
      → Ended self.adapter c v outcome
      → Backed self q v (finish_wait action outcome status)
  unfolding finish_wait
  finish_wait-Backed c action outcome link_lost sent ended = tt
  finish_wait-Backed c action outcome timed_out sent ended = tt
  finish_wait-Backed c action outcome reached sent ended =
      command_result-Backed c action outcome (some true) none sent ended
  finish_wait-Backed c action outcome not_waited sent ended =
      command_result-Backed c action outcome none none sent ended

  some-Backed :
      (r response : DaemonResponse)
      → Backed self q v r
      → some r ≡ some response
      → Backed self q v response
  some-Backed r response b e = let same : r ≡ response = cc e in subst (Backed self q v) same b

  failure-Backed :
      (code : ExitCode) (detail : Detail)
      → code ≢ Protocol.success
      → Backed self q v (failure code detail)
  failure-Backed Protocol.success detail error = error refl
  failure-Backed _ detail error = tt

  -- A rejection.
  stopped-Backed :
      (c : Command) (dry : Bool)
      → let d : GuardDecision =
          check c (self.adapter.get_state v) (flag "confirm" q.params) self.guard_config in
        not d.allowed ≡ true
        → Backed self q v (failure d.exit_code (rejected dry d.reason d.checks))
  stopped-Backed c dry stopped = failure-Backed _ _ (
      check-fails c (self.adapter.get_state v) (flag "confirm" q.params) self.guard_config
        (ground arith))

  -- `_pre_execute` answers for the guard.
  pub pre_execute-Backed :
      (c : Command) (dry : Bool) (response : DaemonResponse)
      → Asked self q v c
      → flag "dry_run" q.params ≡ dry
      → pre_execute
          (check c (self.adapter.get_state v) (flag "confirm" q.params) self.guard_config)
          dry
        ≡ some response
      → Backed self q v response
  unfolding pre_execute
  pre_execute-Backed c true response asked dry =
      let decision : GuardDecision =
        check c (self.adapter.get_state v) (flag "confirm" q.params) self.guard_config in
      if_cases (λ o. o ≡ some response → Backed self q v response) (not decision.allowed)
        (λ stopped. some-Backed _ response (stopped-Backed c true stopped))
        (λ _. some-Backed _ response (c, asked, dry))
  pre_execute-Backed c false response asked dry =
      let decision : GuardDecision =
        check c (self.adapter.get_state v) (flag "confirm" q.params) self.guard_config in
      if_cases (λ o. o ≡ some response → Backed self q v response) (not decision.allowed)
        (λ stopped. some-Backed _ response (stopped-Backed c false stopped))
        (λ _.
          if_cases (λ o. o ≡ some response → Backed self q v response) decision.already_satisfied
            (λ done. some-Backed _ response (c, asked, done)) (λ _ e. cc e))
