-- ===== src/Cli/Invocation.antt =====
-- The commands of src/mavctl/cli/app.py that talk to the daemon, as one type: what `typer` reads from
-- the command line.
use mavctl.Prelude.{Bool, Option, String, Float}
use mavctl.Server.Response.{Payload}
use mavctl.Cli.Terminal.{Terminal, Ending}
use mavctl.Cli.Flight.{Options}
use mavctl.Cli.Flight
use mavctl.Cli.Mission

pub data Invocation : Type 0 where
  status telemetry : Invocation
  operation_get : String → Invocation
  arm : Bool → Bool → Invocation
  disarm : Bool → Bool → Bool → Invocation
  mode : String → Options → Invocation
  takeoff : Float → Options → Invocation
  land rtl mission_start : Options → Invocation
  mission_upload : String → Bool → Bool → Invocation
  mission_download : Option String → Bool → Invocation
  mission_clear : Bool → Bool → Invocation

-- The command's function of `app`.
unfoldable pub run : {S : Type 0} → Terminal S → Invocation → S → Ending Payload × S
unfolding Flight.status Flight.telemetry Flight.operation_get Flight.arm Flight.disarm Flight.mode
    Flight.takeoff Flight.land Flight.rtl Mission.mission_start Mission.mission_upload
    Mission.mission_download Mission.mission_clear
run terminal status = Flight.status terminal
run terminal telemetry = Flight.telemetry terminal
run terminal (operation_get operation_id) = Flight.operation_get terminal operation_id
run terminal (arm confirm dry_run) = Flight.arm terminal confirm dry_run
run terminal (disarm confirm force dry_run) = Flight.disarm terminal confirm force dry_run
run terminal (mode mode_name o) = Flight.mode terminal mode_name o
run terminal (takeoff alt o) = Flight.takeoff terminal alt o
run terminal (land o) = Flight.land terminal o
run terminal (rtl o) = Flight.rtl terminal o
run terminal (mission_start o) = Mission.mission_start terminal o
run terminal (mission_upload mission_json confirm dry_run) =
    Mission.mission_upload terminal mission_json confirm dry_run
run terminal (mission_download output json_mode) =
    Mission.mission_download terminal output json_mode
run terminal (mission_clear confirm dry_run) = Mission.mission_clear terminal confirm dry_run
