-- ===== src/Server/Replies.antt =====
-- The answers that the handlers of src/mavctl/daemon/server.py share, and `_blocking`.
use mavctl.Prelude.{ℕ, Bool, true, false, not, Option, none, some, String, if◌then◌else◌, is_text}
use mavctl.Models.Protocol.{vehicle_not_connected, usage_error, nack_timeout}
use mavctl.Models.Command.{
  CommandOutcome, adapter_failure, WaitStatus, not_waited, reached, timed_out, link_lost,
}
use mavctl.Models.Mission.{MissionResult, uncertain_result, no_space_result, unsupported_result}
use mavctl.Models.Operation.{OperationState}
use mavctl.Models.Operation
use mavctl.Guards.Decision.{Action, GuardDecision}
use mavctl.Operations.Registry.{Operation}
use mavctl.Server.Interface.{
  AdapterError, connection_lost, mission_protocol, Called, returned, raised, crashed,
}
use mavctl.Server.Interface
use mavctl.Server.Response.{DaemonResponse, success, failure}
use mavctl.Server.Response

-- `_not_connected`
unfoldable pub not_connected : String → DaemonResponse
not_connected connection = failure vehicle_not_connected (Response.no_link connection)

-- `_invalid_altitude`
unfoldable pub invalid_altitude : DaemonResponse
invalid_altitude = failure usage_error Response.invalid_altitude

-- `_invalid_timeout`
unfoldable pub invalid_timeout : DaemonResponse
invalid_timeout = failure usage_error Response.invalid_timeout

-- `_pre_execute`: the answer that ends the request before a command is sent, if there is one.
unfoldable pub pre_execute : GuardDecision → Bool → Option DaemonResponse
pre_execute decision true =
    if not decision.allowed
    then some (failure decision.exit_code (Response.rejected true decision.reason decision.checks))
    else some (
        success (
          Response.dry_run decision.action (not decision.already_satisfied)
            decision.already_satisfied decision.checks))
pre_execute decision false =
    if not decision.allowed
    then some (failure decision.exit_code (Response.rejected false decision.reason decision.checks))
    else if decision.already_satisfied
    then some (success (Response.nothing_to_do decision.action))
    else none

-- `_blocking`: mission and mode errors go on to the handler, other adapter errors become an
-- outcome that is not accepted.
unfoldable pub blocking : Called CommandOutcome → Called CommandOutcome
unfolding adapter_failure
blocking (raised connection_lost) = returned adapter_failure
blocking other = other

-- `_command_result`
unfoldable pub command_result :
    Action → CommandOutcome → Option Bool → Option String → DaemonResponse
command_result action outcome waited operation_id =
    if not outcome.accepted
    then failure nack_timeout (Response.not_accepted outcome)
    else success (Response.executed action outcome waited operation_id)

-- `_mission_uncertain`, of `sent_upto`, `observed_count` and the two numbers of a sequence gap
unfoldable pub mission_uncertain : Option ℕ → Option ℕ → Option (ℕ × ℕ) → DaemonResponse
mission_uncertain sent_upto observed_count gap =
    failure nack_timeout (Response.state_uncertain sent_upto observed_count gap)

-- `result_of` of a `MissionProtocolError`; the two kinds of unsupported missions name themselves.
unfoldable pub result_of : AdapterError → Option MissionResult
result_of (mission_protocol result) = some result
result_of (Interface.state_uncertain sent_upto observed_count gap) = some uncertain_result
result_of (Interface.count_unsupported observed_count limit) = some no_space_result
result_of (Interface.item_unsupported seq command frame) = some unsupported_result
result_of _ = none

-- `_mission_rejected`
unfoldable pub mission_rejected : MissionResult → DaemonResponse
mission_rejected result = failure nack_timeout (Response.transaction_rejected result)

-- `_finish_wait`
unfoldable pub finish_wait : Action → CommandOutcome → WaitStatus → DaemonResponse
unfolding command_result
finish_wait action outcome link_lost =
    failure vehicle_not_connected (Response.link_lost_during_wait outcome)
finish_wait action outcome timed_out = failure nack_timeout (Response.wait_elapsed outcome)
finish_wait action outcome reached = command_result action outcome (some true) none
finish_wait action outcome not_waited = command_result action outcome none none

-- `_finish_operation_wait`, at the operation as it is when the wait ends
unfoldable pub finish_operation_wait : Action → CommandOutcome → Operation → DaemonResponse
unfolding command_result is_text
finish_operation_wait action outcome operation = elim operation.state [
  | Operation.reached ↦ command_result action outcome (some true) (some operation.operation_id)
  | Operation.superseded ↦ failure nack_timeout (
      Response.operation_superseded operation.operation_id operation.superseded_by_operation_id
        outcome)
  | Operation.link_lost ↦
      failure vehicle_not_connected (Response.operation_link_lost operation.operation_id outcome)
  | Operation.uncertain ↦ failure nack_timeout (
      Response.operation_uncertain
        (is_text operation.terminal_reason "operation_observation_failed") operation.operation_id
        outcome)
  | _ ↦ failure nack_timeout (Response.operation_wait_timeout operation.operation_id outcome)
]
