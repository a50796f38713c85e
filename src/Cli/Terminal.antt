-- ===== src/Cli/Terminal.antt =====
-- What the commands of src/mavctl/cli/app.py share: how a command ends (`emit_success` and `fail` of
-- src/mavctl/cli/render.py), the checks of options, and `_call`.
use mavctl.Prelude.{
  Bool, not, ◌&&◌, Option, none, some, String, Float, ℕ, ℤ, seconds, zero_float, float_add,
  float_lt, is_finite, if◌then◌else◌,
}
use mavctl.Models.Protocol.{ExitCode, code, general_error, usage_error, daemon_not_running}
use mavctl.Models.Protocol
use mavctl.Models.Mission.{MissionV1}
use mavctl.Models.Link.{validate_source_system}
use mavctl.Server.Params.{Json, Params, RpcRequest}
use mavctl.Server.Response.{DaemonResponse, Payload, success, failure}
use mavctl.Client.Socket.{Reply, answered, not_running, broken, crashed}

-- How the process ends: with a result on the output, by `fail` with a code, or by an exception that
-- nothing catches.
pub data Ending (A : Type 0) : Type 0 where
  emitted : A → Ending A
  failed : ExitCode → Ending A
  aborted : Ending A

-- The exit status of the process; Python's is 1 for an exception.
unfoldable pub exit_code : {A : Type 0} → Ending A → ℕ
unfolding code
exit_code (emitted payload) = code Protocol.success
exit_code (failed c) = code c
exit_code aborted = 1

-- What `read_text` of a file gives: an `OSError`, the `UnicodeDecodeError` of bytes that are not
-- UTF-8, or the text.
pub data Read : Type 0 where
  unreadable undecodable : Read
  content : String → Read

-- What the commands use from outside, and the state `S` of what they talk to: `call_daemon`, the
-- JSON value that `model_dump` makes of a mission, `read_text` and `write_text` of files (`false` is
-- an `OSError`), and `MissionV1` from a text, its fields and their types.
pub record Terminal (S : Type 0) : Type 0 where
  pub call_daemon : RpcRequest → Float → S → Reply DaemonResponse × S
  pub dump_mission : MissionV1 → Json
  pub read_text : String → Read
  pub write_text : String → Payload → Bool
  pub mission_of_json : String → Option MissionV1

-- `_QUERY_TIMEOUT` and `_COMMAND_BASE_TIMEOUT`
abbrev pub query_timeout : Float
query_timeout = seconds 5

abbrev pub command_base_timeout : Float
command_base_timeout = seconds 25

-- `_client_timeout`
unfoldable pub client_timeout : Bool → Float → Float
unfolding float_add
client_timeout wait timeout = if wait then float_add timeout (seconds 30) else command_base_timeout

-- The test of `_check_timeout` and of `_check_heartbeat_timeout`
unfoldable pub is_timeout : Float → Bool
unfolding is_finite float_lt
is_timeout timeout = is_finite timeout && float_lt zero_float timeout

module _ {S A : Type 0} where
  -- `_check_timeout`, in front of what follows it
  unfoldable pub check_timeout : Float → (S → Ending A × S) → S → Ending A × S
  unfolding is_timeout
  check_timeout timeout run s = if not (is_timeout timeout) then (failed usage_error, s) else run s

  -- `_check_source_system`, in front of what follows it
  unfoldable pub check_source_system : ℤ → (S → Ending A × S) → S → Ending A × S
  unfolding validate_source_system
  check_source_system source_system run s = elim (validate_source_system source_system) [
    | none ↦ (failed usage_error, s)
    | some _ ↦ run s
  ]

-- The end of `_call`: a failure ends the process, and a result goes to what follows the call.
unfoldable pub accept_reply : (Payload → Ending Payload) → Reply DaemonResponse → Ending Payload
accept_reply next (answered (success payload)) = next payload
accept_reply next (answered (failure c detail)) = failed c
accept_reply next not_running = failed daemon_not_running
accept_reply next broken = failed general_error
accept_reply next crashed = aborted

module _ {S : Type 0} (terminal : Terminal S) where
  -- `_call`, and what the command does with the result
  unfoldable pub call :
      String → Params → Float → (Payload → Ending Payload) → S → Ending Payload × S
  unfolding accept_reply
  call method params timeout next s =
      let (reply, later) =
        terminal.call_daemon (record { method = method; params = params }) timeout s in
      (accept_reply next reply, later)
