-- ===== src/Server/Missions.antt =====
-- The mission handlers of src/mavctl/daemon/server.py.
use mavctl.Prelude.{ℕ, ◌-◌, Float, Option, none, some, not, if◌then◌else◌}
use mavctl.Models.Protocol.{usage_error, safety_rejected, nack_timeout}
use mavctl.Models.State.{VehicleState}
use mavctl.Models.Operation.{OperationKind}
use mavctl.Models.Mission.{MissionV1, MissionOutcome}
use mavctl.Guards.Decision.{Action}
use mavctl.Guards.Commands.{Command, check}
use mavctl.Server.Interface.{AdapterError, Called, returned, raised, crashed}
use mavctl.Server.Interface
use mavctl.Server.Params.{Params, flag, wait_timeout, parse_mission}
use mavctl.Server.Response.{DaemonResponse, success, failure}
use mavctl.Server.Response
use mavctl.Server.Replies.{
  not_connected, invalid_timeout, mission_uncertain, mission_rejected, pre_execute, result_of,
}
use mavctl.Server.World.{
  DaemonServer, World, Outside, mission_running, Handled, answered, escaped, answer_or, guarded,
  call_verb, begin_accepted, wanted,
}

-- The `except` clauses of upload and clear.
unfoldable pub transaction_failure : AdapterError → Option DaemonResponse
unfolding mission_uncertain result_of mission_rejected
transaction_failure (Interface.state_uncertain sent_upto observed_count gap) =
    some (mission_uncertain sent_upto observed_count gap)
transaction_failure other = elim (result_of other) [
  | none ↦ none
  | some result ↦ some (mission_rejected result)
]

-- The `except` clauses of the download. Of a count, the home slot is no item.
unfoldable pub download_failure : AdapterError → Option DaemonResponse
unfolding mission_uncertain result_of
download_failure (Interface.item_unsupported seq command frame) =
    some (failure nack_timeout (Response.item_unsupported seq command frame))
download_failure (Interface.count_unsupported observed_count limit) =
    some (failure nack_timeout (Response.count_unsupported (observed_count - 1) limit))
download_failure (Interface.state_uncertain sent_upto observed_count gap) =
    some (mission_uncertain sent_upto observed_count gap)
download_failure other = elim (result_of other) [
  | none ↦ none
  | some result ↦ some (failure nack_timeout (Response.mission_protocol_timeout result))
]

-- The `except` clause of the count probe.
unfoldable pub count_failure : AdapterError → Option DaemonResponse
unfolding result_of
count_failure error = elim (result_of error) [
  | none ↦ none
  | some result ↦ some (failure safety_rejected (Response.mission_count_unverified result))
]

module _ {V : Type 0} where
  -- The answers of a handler to the exceptions of `_blocking_mission`; any other one escapes.
  unfoldable pub refused : Option DaemonResponse → World V → Handled × World V
  refused none w = (escaped, w)
  refused (some response) w = (answered response, w)

  unfoldable pub finish_transaction : Called MissionOutcome → World V → Handled × World V
  unfolding refused transaction_failure
  finish_transaction (returned outcome) w =
      (answered (success (Response.mission_outcome outcome)), w)
  finish_transaction (raised error) w = refused (transaction_failure error) w
  finish_transaction crashed w = (escaped, w)

  unfoldable pub finish_download : Called MissionV1 → World V → Handled × World V
  unfolding refused download_failure
  finish_download (returned mission) w = (answered (success (Response.downloaded mission)), w)
  finish_download (raised error) w = refused (download_failure error) w
  finish_download crashed w = (escaped, w)

module _ {V : Type 0} (self : DaemonServer V) (x : Outside) (p : Params) (w : World V) where
  -- `_m_mission_upload`
  unfoldable pub m_mission_upload : Handled × World V
  unfolding parse_mission guarded call_verb finish_transaction
  m_mission_upload = elim (parse_mission self.py p) [
    | none ↦ (answered (failure usage_error Response.invalid_mission), w)
    | some mission ↦
        guarded self (Command.mission_upload mission) p w
          (λ w. call_verb (self.adapter.upload_mission mission) w finish_transaction)
  ]

  -- `_m_mission_clear`
  unfoldable pub m_mission_clear : Handled × World V
  unfolding guarded call_verb finish_transaction
  m_mission_clear =
      guarded self Command.mission_clear p w
        (λ w. call_verb self.adapter.clear_mission w finish_transaction)

  -- `_m_mission_download`
  unfoldable pub m_mission_download : Handled × World V
  unfolding not_connected call_verb finish_download
  m_mission_download =
      if not (self.adapter.get_state w.vehicle).connected
      then (answered (not_connected self.connection_string), w)
      else call_verb self.adapter.download_mission w finish_download

  -- `_m_mission_start` behind the count probe. The snapshot is the one read before the probe.
  unfoldable pub start_counted : VehicleState → Float → Called ℕ → World V → Handled × World V
  unfolding flag refused count_failure pre_execute answer_or call_verb begin_accepted wanted
  start_counted state timeout (returned count) w =
      let decision =
        check (Command.mission_start count) state (flag "confirm" p) self.guard_config in
      answer_or (pre_execute decision (flag "dry_run" p)) w (λ w.
        if decision.already_satisfied
        then (answered (success Response.already_running), w)
        else call_verb self.adapter.start_mission w (
            begin_accepted Action.mission_start OperationKind.mission_start mission_running
              (wanted p timeout) x))
  start_counted state timeout (raised error) w = refused (count_failure error) w
  start_counted state timeout crashed w = (escaped, w)

  -- `_m_mission_start`
  unfoldable pub m_mission_start : Handled × World V
  unfolding wait_timeout not_connected call_verb start_counted
  m_mission_start = elim (wait_timeout p) [
    | none ↦ (answered invalid_timeout, w)
    | some timeout ↦
        let state = self.adapter.get_state w.vehicle in
        if not state.connected
        then (answered (not_connected self.connection_string), w)
        else call_verb self.adapter.get_mission_count w (start_counted state timeout)
  ]
