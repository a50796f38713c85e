-- ===== src/Cli/Starting.antt =====
-- `daemon start` and the daemon's own entry check the same.
use mavctl.Prelude.{◌≡◌, ◌≢◌, ◌↔◌, none, String, Float, ℤ, arith}
use mavctl.Models.Protocol.{usage_error}
use mavctl.Process.Files.{RuntimeDir}
use mavctl.Process.Entry.{parse_args}
use mavctl.Cli.Terminal.{failed, check_timeout, check_source_system}
use mavctl.Cli.Daemon.{System, launch, daemon_start}

launch-not-usage :
    (system : System) (connect : String) (d : RuntimeDir)
    → (launch system connect d).0 ≢ failed usage_error
unfolding launch
launch-not-usage system connect d e = ground arith

-- `daemon start` ends with the code for wrong usage exactly when the entry of the daemon refuses the
-- same arguments; and then the files are as they were.
pub daemon_start-parse_args :
    (system : System) (connect : String) (heartbeat_timeout : Float) (source_system : ℤ)
    (d : RuntimeDir)
    → let result = daemon_start system connect heartbeat_timeout source_system d in
      ((result.0 ≡ failed usage_error)
        ↔ (parse_args connect heartbeat_timeout source_system ≡ none))
      × (parse_args connect heartbeat_timeout source_system ≡ none → result.1 ≡ d)
unfolding daemon_start check_timeout check_source_system parse_args
daemon_start-parse_args system connect heartbeat_timeout source_system d =
    ground (arith, launch-not-usage system connect d)
