-- ===== src/Cli/Daemon.antt =====
-- The commands of src/mavctl/cli/app.py that manage the daemon's process.
use mavctl.Prelude.{ℕ, Bool, true, false, Option, none, some, List, String, Float, ℤ}
use mavctl.Models.Protocol.{general_error, daemon_not_running}
use mavctl.Process.Files.{RuntimeDir, read_pid, is_running}
use mavctl.Process.Lifecycle.{
  Startup, Spawned, ready, escaped, spawn, Waiting, Stopped, Signalling, stop,
}
use mavctl.Cli.Terminal.{Ending, emitted, failed, aborted, check_timeout, check_source_system}

-- What the commands print.
pub data Report : Type 0 where
  already_running running : Option ℤ → Report
  started : ℕ → String → Report
  stopped not_running : Report

-- What the operating system does while a command runs: what `os.kill` answers; the pid of a new
-- process, the deadline and the turns of the loop of `spawn`, and the files after it, which the new
-- process writes; the deadline and the turns of the loop of `stop`.
pub record System : Type 0 where
  pub signalling : Signalling
  pub new_pid : ℕ
  pub startup_deadline : Float
  pub startup : List Startup
  pub files_after : RuntimeDir
  pub term_deadline : Float
  pub waits : List Waiting

module _ (system : System) where
  -- How `spawn` ends the command.
  abbrev launched : String → Spawned → Ending Report
  launched connect ready = emitted (started system.new_pid connect)
  launched connect escaped = aborted
  launched connect _ = failed general_error

  -- What a command does with the answer of `process.is_running()`; `aborted` is its exception.
  abbrev if_running :
      (Option Bool × RuntimeDir)
      → (RuntimeDir → Ending Report × RuntimeDir)
      → (RuntimeDir → Ending Report × RuntimeDir)
      → Ending Report × RuntimeDir
  if_running (none, d) alive gone = (aborted, d)
  if_running (some true, d) alive gone = alive d
  if_running (some false, d) alive gone = gone d

  -- A report on the recorded pid, read again.
  abbrev report_pid : (Option ℤ → Report) → RuntimeDir → Ending Report × RuntimeDir
  unfolding read_pid
  report_pid report d = elim (read_pid d) [
    | none ↦ (aborted, d)
    | some pid ↦ (emitted (report pid), d)
  ]

  -- `daemon_start` behind its checks
  unfoldable pub launch : String → RuntimeDir → Ending Report × RuntimeDir
  unfolding is_running report_pid spawn
  launch connect d =
      if_running (is_running system.signalling.probe d) (report_pid already_running)
        (λ d. (launched connect (spawn system.startup_deadline system.startup), system.files_after))

  -- `daemon_start`
  unfoldable pub daemon_start : String → Float → ℤ → RuntimeDir → Ending Report × RuntimeDir
  unfolding check_timeout check_source_system launch
  daemon_start connect heartbeat_timeout source_system =
      check_timeout heartbeat_timeout (check_source_system source_system (launch connect))

  abbrev report_stop : Stopped → Ending Report × RuntimeDir
  report_stop result = elim result.stopped [
    | none ↦ (aborted, result.files)
    | some true ↦ (emitted stopped, result.files)
    | some false ↦ (emitted not_running, result.files)
  ]

  -- `daemon_stop`
  unfoldable pub daemon_stop : RuntimeDir → Ending Report × RuntimeDir
  unfolding is_running stop
  daemon_stop d =
      if_running (is_running system.signalling.probe d)
        (λ d. report_stop (stop system.signalling system.term_deadline system.waits d))
        (λ d. (failed daemon_not_running, d))

  -- `daemon_status`
  unfoldable pub daemon_status : RuntimeDir → Ending Report × RuntimeDir
  unfolding is_running report_pid
  daemon_status d =
      if_running (is_running system.signalling.probe d) (report_pid running)
        (λ d. (failed daemon_not_running, d))
