-- ===== src/Process/Lifecycle.antt =====
-- `spawn` and `stop` of src/mavctl/daemon/process.py. Each loop reads the clock and then looks at the
-- process; what it reads is a list of turns.
use mavctl.Prelude.{
  Bool, true, false, not, Option, none, some, List, [], ◌∷◌, Float, float_lt, ℤ, if◌then◌else◌,
}
use mavctl.Process.Files.{
  RuntimeDir, Kill, no_process, not_permitted, overflow, delivered, read_pid, clear_pid,
  cleanup_socket, pid_alive,
}

-- A turn of the loop of `spawn`: the clock, `proc.poll()`, and `is_daemon_running()`, `none` if it
-- raises.
pub record Startup : Type 0 where
  pub now : Float
  pub exit_code : Option ℤ
  pub answers : Option Bool

-- How `spawn` ends: with the pid, or with a `RuntimeError` (the daemon has exited, or it is
-- terminated since it did not become ready), or with an exception.
pub data Spawned : Type 0 where
  ready : Spawned
  exited : ℤ → Spawned
  terminated escaped : Spawned

-- The loop of `spawn` and what follows it; past the list the deadline is over.
unfoldable pub spawn : Float → List Startup → Spawned
unfolding float_lt
spawn deadline [] = terminated
spawn deadline (t ∷ turns) =
    let rest = spawn deadline turns in
    if not (float_lt t.now deadline) then terminated else elim t.exit_code [
      | some exit_code ↦ exited exit_code
      | none ↦ elim t.answers [ none ↦ escaped | some true ↦ ready | some false ↦ rest ]
    ]

-- The signals that `stop` delivers.
pub data Sent : Type 0 where
  sigterm sigkill : ℤ → Sent

-- A turn of the loop of `stop`: the clock and `os.kill(pid, 0)`.
pub record Waiting : Type 0 where
  pub now : Float
  pub probe : Kill

-- The loop of `stop`: whether it ends by the deadline, in its `else`; `none` is an exception of
-- `pid_alive`.
unfoldable pub outlives : Float → List Waiting → Option Bool
unfolding pid_alive float_lt
outlives deadline [] = some true
outlives deadline (t ∷ turns) =
    let rest = outlives deadline turns in
    if not (float_lt t.now deadline)
    then some true
    else elim (pid_alive t.probe) [ none ↦ none | some false ↦ some false | some true ↦ rest ]

-- How `stop` ends: what it returns, `none` for an exception, the signals that were delivered, and
-- the files.
pub record Stopped : Type 0 where
  pub stopped : Option Bool
  pub signals : List Sent
  pub files : RuntimeDir

-- The two calls that remove the files, and what is returned behind them.
unfoldable pub clean_up : Bool → List Sent → RuntimeDir → Stopped
unfolding clear_pid cleanup_socket
clean_up stopped signals d = record {
  stopped = some stopped;
  signals = signals;
  files = cleanup_socket (clear_pid d);
}

-- An exception leaves the files.
unfoldable pub raise : List Sent → RuntimeDir → Stopped
raise signals d = record { stopped = none; signals = signals; files = d }

-- `stop` from its `SIGKILL` on, of what `os.kill` answers; only `ProcessLookupError` is suppressed.
unfoldable pub after_kill : ℤ → RuntimeDir → Kill → Stopped
unfolding clean_up raise
after_kill pid d no_process = clean_up true (sigterm pid ∷ []) d
after_kill pid d not_permitted = raise (sigterm pid ∷ []) d
after_kill pid d overflow = raise (sigterm pid ∷ []) d
after_kill pid d delivered = clean_up true (sigterm pid ∷ sigkill pid ∷ []) d

-- What `os.kill` answers to signal 0, `SIGTERM` and `SIGKILL`.
pub record Signalling : Type 0 where
  pub probe : ℤ → Kill
  pub term : ℤ → Kill
  pub kill : ℤ → Kill

module _ (system : Signalling) (deadline : Float) (turns : List Waiting) where
  -- `stop` from its loop on.
  unfoldable pub wait_and_kill : ℤ → RuntimeDir → Stopped
  unfolding outlives clean_up raise after_kill
  wait_and_kill pid d = elim (outlives deadline turns) [
    | none ↦ raise (sigterm pid ∷ []) d
    | some false ↦ clean_up true (sigterm pid ∷ []) d
    | some true ↦ after_kill pid d (system.kill pid)
  ]

  -- `stop` from its `SIGTERM` on.
  unfoldable pub terminate : ℤ → RuntimeDir → Kill → Stopped
  unfolding clean_up raise wait_and_kill
  terminate pid d no_process = clean_up false [] d
  terminate pid d not_permitted = raise [] d
  terminate pid d overflow = raise [] d
  terminate pid d delivered = wait_and_kill pid d

  -- `stop`
  unfoldable pub stop : RuntimeDir → Stopped
  unfolding read_pid pid_alive clean_up raise terminate
  stop d = elim (read_pid d) [
    | none ↦ raise [] d
    | some none ↦ clean_up false [] d
    | some (some pid) ↦ elim (pid_alive (system.probe pid)) [
      | none ↦ raise [] d
      | some false ↦ clean_up false [] d
      | some true ↦ terminate pid d (system.term pid)
    ]
  ]
