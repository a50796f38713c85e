-- ===== src/Examples/CommandLine.antt =====
-- The theorems on the command line, the client and the daemon's process, in front of the simulated
-- vehicle.
use mavctl.Models.Command.{from_ack}
use mavctl.Guards.Flight.{check_takeoff}
use mavctl.Guards.Commands.{check}
use mavctl.Server.Flight.{m_takeoff}
use mavctl.Prelude.{
  ◌≡◌, ◌↔◌, refl, true, false, none, some, List, [], ◌∷◌, String, Float, pos, seconds, metres,
  thousandths, finite, inr, arith, ◌-ℤ◌, is_finite, float_lt, float_le,
}
use mavctl.Models.Protocol.{usage_error}
use mavctl.Models.Mission.{MissionV1}
use mavctl.Server.Params.{Json, object, text, RpcRequest}
use mavctl.Server.Response.{DaemonResponse}
use mavctl.Server.World.{DaemonServer, World}
use mavctl.Server.Dispatch.{dispatch}
use mavctl.Server.Connection.{answer}
use mavctl.Guards.Decision.{is_fresh}
use mavctl.Adapter.Snapshot.{Snapshot, empty_snapshot}
use mavctl.Adapter.Observation.{get_state}
use mavctl.Client.Wire.{Codec, newline, has_newline, encode}
use mavctl.Client.Socket.{answered, chunk}
use mavctl.Client.Transparent.{Trip, call_served, call_served-dispatch}
use mavctl.Process.Files.{RuntimeDir, not_permitted, delivered, absent, holds}
use mavctl.Process.Lifecycle.{Waiting, sigterm, sigkill, Signalling, stop}
use mavctl.Process.Entry.{parse_args, config_of}
use mavctl.Process.Drift.{get_state-is_fresh}
use mavctl.Process.Stopping.{Leaves, stop-Leaves}
use mavctl.Cli.Terminal.{Terminal, content, undecodable, failed, aborted, exit_code}
use mavctl.Cli.Flight.{Options}
use mavctl.Cli.Invocation.{Invocation, takeoff, mission_upload, run}
use mavctl.Cli.Mission.{loaded, load_mission_file}
use mavctl.Models.State.{VehicleState}
use mavctl.Cli.Asked.{Reads, Asks, run-Asks}
use mavctl.Cli.EndToEnd.{Does, run-Does}
use mavctl.Cli.Contract.{Ends, run-exit_code}
use mavctl.Cli.Honest.{IsHonest, run-IsHonest}
use mavctl.Cli.Daemon.{System, daemon_start}
use mavctl.Cli.Starting.{daemon_start-parse_args}
use mavctl.Examples.Snapshots.{short_mission}
use mavctl.Examples.Daemon.{Sim, daemon, exchange, ready_world, takeoff_request, no_operations}

-- Python, as far as the examples use it.
abbrev shown : Json → String
shown (text s) = s
shown _ = ""

abbrev server : DaemonServer Sim
server = record daemon {
  py = record {
    text_of = shown;
    float_of = λ written. none;
    mission_of = λ value. some short_mission;
  };
}

-- A client whose calls arrive.
abbrev terminal : Terminal (World Sim)
terminal = record {
  call_daemon = λ q timeout w. (
    answered (answer (dispatch server exchange (some q) w).0 no_operations),
    (dispatch server exchange (some q) w).1,
  );
  dump_mission = λ mission. object false 1;
  read_text = λ path. content "";
  write_text = λ path payload. true;
  mission_of_json = λ written. some short_mission;
}

loads_short : (path : String) → load_mission_file terminal path ≡ loaded short_mission
unfolding load_mission_file is_finite float_lt float_le
loads_short path = refl

loaded_short :
    (path : String) (m : MissionV1)
    → load_mission_file terminal path ≡ loaded m
    → some short_mission ≡ some m
loaded_short path m e = cc (loads_short path, e)

reads : Reads server.py terminal
reads = record { text_of-text = λ s. refl; mission_of-dump = loaded_short }

-- `mavctl takeoff --alt 10 --confirm`
abbrev line : Invocation
line =
    takeoff (metres 10)
      (record { confirm = true; dry_run = false; wait = false; timeout = seconds 60 })

run-Asks_example : Asks server.py terminal line ready_world (run terminal line ready_world)
run-Asks_example = run-Asks server.py terminal line ready_world reads

run-Does_example :
    Does server terminal line ready_world.vehicle (run terminal line ready_world).1.vehicle
run-Does_example =
    run-Does server terminal line ready_world reads (λ q timeout w. inr (exchange, refl))

run-exit_code_example :
    Ends server terminal exchange no_operations ready_world line (run terminal line ready_world)
run-exit_code_example =
    run-exit_code server terminal exchange no_operations ready_world line reads (λ q timeout. refl)

run-IsHonest_example :
    IsHonest server terminal line ready_world.vehicle (run terminal line ready_world).0
run-IsHonest_example =
    run-IsHonest server terminal line ready_world reads
      (λ q timeout w response e. (exchange, no_operations, cc e))

-- The take-off ends with the code 0.
accepted_line : exit_code (run terminal line ready_world).0 ≡ 0
unfolding run exit_code answer dispatch m_takeoff float_le check check_takeoff from_ack
accepted_line = refl

-- `--timeout 0` is refused, but not of `mission start`, whose request is sent.
abbrev no_time : Options
no_time = record { confirm = true; dry_run = false; wait = true; timeout = seconds 0 }

refused : run terminal (takeoff (metres 10) no_time) ready_world ≡ (failed usage_error, ready_world)
unfolding run
refused = refl

-- A mission file that is not UTF-8 ends the command with 1, not with the code for wrong usage.
undecoded :
    run
      (record terminal { read_text = λ path. undecodable })
      (mission_upload "m.json" true false)
      ready_world
    ≡ (aborted, ready_world)
unfolding run load_mission_file
undecoded = refl

-- A codec for one request and its answer.
abbrev takes_off : DaemonResponse
takes_off = answer (dispatch server exchange (some takeoff_request) ready_world).0 no_operations

abbrev requests : Codec RpcRequest
requests = record { dumps = λ q. 1 ∷ []; loads = λ line. some takeoff_request }

abbrev responses : Codec DaemonResponse
responses = record { dumps = λ r. 2 ∷ 3 ∷ []; loads = λ line. some takes_off }

-- The answer comes in two pieces, the second with the newline.
abbrev trip : Trip
trip = record {
  outside = exchange;
  settled = no_operations;
  cut = λ bytes. chunk (2 ∷ []) ∷ chunk (3 ∷ newline ∷ []) ∷ [];
}

call_served-dispatch_example :
    call_served requests responses server trip takeoff_request ready_world
    ≡ (answered takes_off, (dispatch server exchange (some takeoff_request) ready_world).1)
unfolding encode has_newline
call_served-dispatch_example =
    call_served-dispatch requests responses server trip takeoff_request ready_world
      ((2 ∷ []) ∷ (3 ∷ newline ∷ []) ∷ []) [] (record { one_line = refl; loads-dumps = refl })
      (omega arith) (record { one_line = refl; loads-dumps = refl }) refl (tt, (tt, tt)) refl

abbrev heard : Snapshot
heard = record empty_snapshot { last_hb_monotonic = some (seconds 1) }

get_state-is_fresh_example :
    let state = get_state "udp" (thousandths 3000) (seconds 3) (seconds 3) heard in
    is_fresh state (config_of (thousandths 3000)) ≡ state.connected
get_state-is_fresh_example = get_state-is_fresh "udp" 3000 (seconds 3) (seconds 3) heard

-- With a time-out of 2.9996 s and a heartbeat of that age the two disagree.
abbrev odd_timeout : Float
odd_timeout = finite (pos 2999600000)

abbrev odd_state : VehicleState
odd_state =
    get_state "udp" odd_timeout odd_timeout odd_timeout
      (record empty_snapshot { last_hb_monotonic = some (seconds 0) })

drifts : (odd_state.connected ≡ true) × (is_fresh odd_state (config_of odd_timeout) ≡ false)
unfolding get_state is_fresh config_of empty_snapshot ◌-ℤ◌
drifts = (refl, refl)

-- A process that ignores `SIGTERM` for ten seconds.
abbrev alive : Signalling
alive = record { probe = λ pid. delivered; term = λ pid. delivered; kill = λ pid. delivered }

abbrev files : RuntimeDir
files = record { pid_file = holds (pos 42); socket = true }

abbrev stubborn : List Waiting
stubborn =
    record { now = seconds 1; probe = delivered }
    ∷ record { now = seconds 10; probe = delivered }
    ∷ []

stop-Leaves_example :
    Leaves alive (seconds 8) stubborn files (stop alive (seconds 8) stubborn files)
stop-Leaves_example = stop-Leaves alive (seconds 8) stubborn files

-- It is killed at the end; but if that is not permitted, the files stay.
killed : stop alive (seconds 8) stubborn files ≡ record {
  stopped = some true;
  signals = sigterm (pos 42) ∷ sigkill (pos 42) ∷ [];
  files = record { pid_file = absent; socket = false };
}
unfolding stop
killed = refl

not_killed :
    stop (record alive { kill = λ pid. not_permitted }) (seconds 8) stubborn files
    ≡ record { stopped = none; signals = sigterm (pos 42) ∷ []; files = files }
unfolding stop
not_killed = refl

abbrev system : System
system = record {
  signalling = alive;
  new_pid = 43;
  startup_deadline = seconds 12;
  startup = [];
  files_after = files;
  term_deadline = seconds 8;
  waits = stubborn;
}

daemon_start-parse_args_example :
    let result = daemon_start system "udp" (seconds 3) (pos 256) files in
    ((result.0 ≡ failed usage_error) ↔ (parse_args "udp" (seconds 3) (pos 256) ≡ none))
    × (parse_args "udp" (seconds 3) (pos 256) ≡ none → result.1 ≡ files)
daemon_start-parse_args_example = daemon_start-parse_args system "udp" (seconds 3) (pos 256) files
