-- ===== src/Models/Protocol.antt =====
-- Exit codes of the process contract (src/mavctl/models/protocol.py).
use mavctl.Prelude.{ℕ}

pub data ExitCode : Type 0 where
  success general_error usage_error daemon_not_running vehicle_not_connected safety_rejected
        nack_timeout :
      ExitCode

-- The number that the process exits with.
unfoldable pub code : ExitCode → ℕ
code success = 0
code general_error = 1
code usage_error = 2
code daemon_not_running = 3
code vehicle_not_connected = 4
code safety_rejected = 5
code nack_timeout = 6
