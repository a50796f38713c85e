-- ===== src/Process/Entry.antt =====
-- The entry of the daemon's process (src/mavctl/daemon/__main__.py): its arguments and the server
-- that it makes of them.
use mavctl.Prelude.{ℕ, not, Option, none, some, String, Float, ℤ, if◌then◌else◌}
use mavctl.Models.Link.{validate_source_system}
use mavctl.Guards.Decision.{GuardConfig, default_config}
use mavctl.Cli.Terminal.{is_timeout}
use mavctl.Server.Interface.{VehicleAdapter}
use mavctl.Server.Params.{Readers}
use mavctl.Server.World.{DaemonServer}

pub record Namespace : Type 0 where
  pub connect : String
  pub heartbeat_timeout : Float
  pub source_system : ℕ

-- `_parse_args`, of arguments with the right types; `none` is `parser.error`.
unfoldable pub parse_args : String → Float → ℤ → Option Namespace
unfolding is_timeout validate_source_system
parse_args connect heartbeat_timeout source_system =
    if not (is_timeout heartbeat_timeout)
    then none
    else elim (validate_source_system source_system) [
      | none ↦ none
      | some value ↦ some (record {
        connect = connect;
        heartbeat_timeout = heartbeat_timeout;
        source_system = value;
      })
    ]

-- The guards' limits with the daemon's time-out.
unfoldable pub config_of : Float → GuardConfig
config_of heartbeat_timeout = record default_config { max_heartbeat_age_s = heartbeat_timeout }

-- The server that `main` makes; `create_adapter` makes an adapter of the arguments.
unfoldable pub make_server :
    {V : Type 0} → Readers → (Namespace → VehicleAdapter V) → Namespace → DaemonServer V
unfolding config_of
make_server py create_adapter args = record {
  adapter = create_adapter args;
  connection_string = args.connect;
  guard_config = config_of args.heartbeat_timeout;
  py = py;
}
