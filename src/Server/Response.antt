-- ===== src/Server/Response.antt =====
-- What the daemon answers: `DaemonResponse` of src/mavctl/models/protocol.py, with the
-- machine-readable contents that src/mavctl/daemon/server.py puts in a result or in an error's
-- `detail`. The texts for people (`message`, `hint`, `note`) are left out.
use mavctl.Prelude.{ℕ, Bool, Option, List, String}
use mavctl.Models.Protocol.{ExitCode}
use mavctl.Models.Protocol
use mavctl.Models.State.{VehicleState}
use mavctl.Models.Telemetry.{Telemetry}
use mavctl.Models.Command.{CommandOutcome}
use mavctl.Models.Mission.{MissionV1, MissionResult, MissionOutcome}
use mavctl.Models.Operation.{OperationSnapshot}
use mavctl.Guards.Decision.{Action, Reason, GuardCheck}

-- `result` of a success.
pub data Payload : Type 0 where
  pong : String → Payload
  stopping already_running : Payload
  vehicle_state : VehicleState → Payload
  telemetry : Telemetry → Payload
  operation : OperationSnapshot → Payload
  mission_outcome : MissionOutcome → Payload
  downloaded : MissionV1 → Payload
  -- `action`, `would_execute`, `already_satisfied` and `checks` of a dry run
  dry_run : Action → Bool → Bool → List GuardCheck → Payload
  -- `already_satisfied` with `executed` false
  nothing_to_do : Action → Payload
  -- `action` with `executed` true, `outcome`, `waited` and `operation_id`
  executed : Action → CommandOutcome → Option Bool → Option String → Payload

-- `detail` of an error.
pub data Detail : Type 0 where
  nothing invalid_altitude invalid_timeout invalid_mission unsupported_force_arm
        mode_map_unavailable :
      Detail
  no_link : String → Detail
  -- `dry_run`, `reason` and `checks` of a guard's rejection
  rejected : Bool → Option Reason → List GuardCheck → Detail
  -- `outcome` of a command that the vehicle did not accept
  not_accepted : CommandOutcome → Detail
  wait_elapsed link_lost_during_wait : CommandOutcome → Detail
  operation_link_lost operation_wait_timeout : String → CommandOutcome → Detail
  -- whether the reason is `operation_observation_failed`
  operation_uncertain : Bool → String → CommandOutcome → Detail
  operation_superseded : String → Option String → CommandOutcome → Detail
  operation_not_found : Option String → Detail
  -- `sent_upto`, `observed_count`, and `expected_seq` with `requested_seq`
  state_uncertain : Option ℕ → Option ℕ → Option (ℕ × ℕ) → Detail
  transaction_rejected mission_protocol_timeout mission_count_unverified : MissionResult → Detail
  item_unsupported : ℕ → ℕ → ℕ → Detail
  count_unsupported : ℕ → ℕ → Detail

-- `DaemonResponse`
pub data DaemonResponse : Type 0 where
  success : Payload → DaemonResponse
  failure : ExitCode → Detail → DaemonResponse

-- The exit code that the client leaves with.
unfoldable pub response_code : DaemonResponse → ExitCode
response_code (success payload) = Protocol.success
response_code (failure code detail) = code
