-- ===== src/Examples/Daemon.antt =====
-- A daemon in front of a simulated vehicle that accepts every command.
use mavctl.Prelude.{ℕ, ◌+◌, true, false, none, some, [], ◌∷◌, seconds, metres}
use mavctl.Models.State.{VehicleState}
use mavctl.Models.Telemetry.{blank_position, blank_attitude, blank_velocity}
use mavctl.Models.Command.{CommandOutcome, from_ack}
use mavctl.Models.Mission.{MissionOutcome, mission_upload}
use mavctl.Models.Operation.{takeoff}
use mavctl.Guards.Decision.{default_config}
use mavctl.Operations.Registry.{Registry}
use mavctl.Operations.Activation.{fresh_operation}
use mavctl.Operations.Calls.{init}
use mavctl.Server.Interface.{VehicleAdapter, returned}
use mavctl.Server.Params.{boolean, number, RpcRequest}
use mavctl.Server.World.{DaemonServer, World, Outside, Poll}
use mavctl.Examples.Snapshots.{parked, ready, short_mission}

-- The simulated vehicle: what it reports, how many wire items it stores, and how many commands it
-- got.
pub record Sim : Type 0 where
  pub state : VehicleState
  pub count : ℕ
  pub commands : ℕ

abbrev obeys : (VehicleState → VehicleState) → Sim → Sim
obeys change s = record s { state = change s.state; commands = s.commands + 1 }

abbrev yes_ : CommandOutcome
yes_ = from_ack 0 1

abbrev stored : MissionOutcome
stored = record {
  action = mission_upload;
  accepted = true;
  item_count = some 3;
  verified = some true;
  observed_count = none;
  sent_upto = none;
}

abbrev pub sim_adapter : VehicleAdapter Sim
sim_adapter = record {
  get_state = λ s. s.state;
  get_telemetry = λ s. record {
    timestamp = none;
    position = record blank_position { relative_alt_m = s.state.relative_alt_m };
    attitude = blank_attitude;
    velocity = blank_velocity;
  };
  mode_names = λ s. "GUIDED" ∷ "AUTO" ∷ [];
  arm = λ s. (returned yes_, obeys (λ state. record state { armed = some true }) s);
  disarm = λ force s. (returned yes_, obeys (λ state. record state { armed = some false }) s);
  set_mode = λ mode s. (returned yes_, obeys (λ state. record state { flight_mode = some mode }) s);
  takeoff = λ alt s. (returned yes_, obeys (λ state. record state { relative_alt_m = some alt }) s);
  land = λ s. (returned yes_, obeys (λ state. record state { armed = some false }) s);
  rtl = λ s. (returned yes_, obeys (λ state. record state { armed = some false }) s);
  start_mission =
      λ s. (returned yes_, obeys (λ state. record state { flight_mode = some "AUTO" }) s);
  upload_mission = λ mission s. (returned stored, record s { count = 4 });
  download_mission = λ s. (returned short_mission, s);
  get_mission_count = λ s. (returned s.count, s);
  clear_mission = λ s. (returned stored, record s { count = 1 });
}

abbrev pub daemon : DaemonServer Sim
daemon = record {
  adapter = sim_adapter;
  connection_string = "udp:14550";
  guard_config = default_config;
  py = record {
    text_of = λ value. "op-1";
    float_of = λ written. some (metres 10);
    mission_of = λ value. some short_mission;
  };
}

abbrev pub no_operations : Registry
no_operations = init (fresh_operation takeoff (seconds 0) (seconds 0) (seconds 0) "" 0)

-- On the ground, and ready to take off.
abbrev pub grounded_world : World Sim
grounded_world = record {
  vehicle = record { state = parked; count = 0; commands = 0 };
  operations = no_operations;
  stopping = false;
}

abbrev pub ready_world : World Sim
ready_world = record grounded_world { vehicle = record { state = ready; count = 0; commands = 0 } }

abbrev pub silent_poll : Poll
silent_poll = record { link = none; state = none; telemetry = none }

abbrev pub exchange : Outside
exchange = record {
  new_id = "op-1";
  effect_sent = seconds 1;
  ack = seconds 2;
  now = seconds 3;
  polls = [];
  final = silent_poll;
}

-- `mavctl takeoff --alt 10 --confirm`
abbrev pub takeoff_request : RpcRequest
takeoff_request = record {
  method = "takeoff";
  params = ("alt", number (metres 10)) ∷ ("confirm", boolean true) ∷ [];
}

-- The same with `--dry-run`.
abbrev pub dry_request : RpcRequest
dry_request = record {
  method = "takeoff";
  params = ("alt", number (metres 10)) ∷ ("confirm", boolean true) ∷ ("dry_run", boolean true) ∷ [];
}
