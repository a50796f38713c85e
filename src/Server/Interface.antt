-- ===== src/Server/Interface.antt =====
-- What the daemon asks of a vehicle: `VehicleAdapter` and its exceptions of
-- src/mavctl/adapter/base.py. `V` is the state of the adapter and the vehicle behind it. A snapshot
-- is read without a change; a verb may change the state.
use mavctl.Prelude.{ℕ, Bool, Option, List, String, Float}
use mavctl.Models.State.{VehicleState}
use mavctl.Models.Telemetry.{Telemetry}
use mavctl.Models.Command.{CommandOutcome}
use mavctl.Models.Mission.{MissionV1, MissionResult, MissionOutcome}

-- The exceptions; `state_uncertain` has `sent_upto`, `observed_count` and, from a sequence gap,
-- the expected and the requested number.
pub data AdapterError : Type 0 where
  connection_lost mode_mapping_unavailable : AdapterError
  mission_protocol : MissionResult → AdapterError
  state_uncertain : Option ℕ → Option ℕ → Option (ℕ × ℕ) → AdapterError
  count_unsupported : ℕ → ℕ → AdapterError
  item_unsupported : ℕ → ℕ → ℕ → AdapterError

-- The end of a call; `crashed` is an exception that is no `AdapterError`.
pub data Called (A : Type 0) : Type 0 where
  returned : A → Called A
  raised : AdapterError → Called A
  crashed : Called A

pub record VehicleAdapter (V : Type 0) : Type 0 where
  pub get_state : V → VehicleState
  pub get_telemetry : V → Telemetry
  pub mode_names : V → List String
  pub arm : V → Called CommandOutcome × V
  pub disarm : Bool → V → Called CommandOutcome × V
  pub set_mode : String → V → Called CommandOutcome × V
  pub takeoff : Float → V → Called CommandOutcome × V
  pub land : V → Called CommandOutcome × V
  pub rtl : V → Called CommandOutcome × V
  pub start_mission : V → Called CommandOutcome × V
  pub upload_mission : MissionV1 → V → Called MissionOutcome × V
  pub download_mission : V → Called MissionV1 × V
  pub get_mission_count : V → Called ℕ × V
  pub clear_mission : V → Called MissionOutcome × V
