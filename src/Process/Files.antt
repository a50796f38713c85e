-- ===== src/Process/Files.antt =====
-- The pid file and the processes: `read_pid`, `write_pid`, `clear_pid`, `pid_alive`, `is_running` and
-- `_cleanup_socket` of src/mavctl/daemon/process.py.
use mavctl.Prelude.{ℤ, pos, ℕ, Bool, true, false, Option, none, some}

-- The pid file: none; one that cannot be read, for an `OSError` other than its absence or for bytes
-- that are no text; one with a text that is no integer; or one with an integer.
pub data PidFile : Type 0 where
  absent unreadable garbled : PidFile
  holds : ℤ → PidFile

-- What `os.kill` of a pid answers: `ProcessLookupError`, `PermissionError`, the `OverflowError` of
-- an integer that is no pid, or nothing.
pub data Kill : Type 0 where
  no_process not_permitted overflow delivered : Kill

-- The files of the runtime directory. They can be removed.
pub record RuntimeDir : Type 0 where
  pub pid_file : PidFile
  pub socket : Bool

-- `read_pid`; the outer `none` is an exception.
unfoldable pub read_pid : RuntimeDir → Option (Option ℤ)
read_pid d = elim d.pid_file [
  | absent ↦ some none
  | unreadable ↦ none
  | garbled ↦ some none
  | holds pid ↦ some (some pid)
]

-- `write_pid`
unfoldable pub write_pid : ℕ → RuntimeDir → RuntimeDir
write_pid pid d = record d { pid_file = holds (pos pid) }

-- `clear_pid`
unfoldable pub clear_pid : RuntimeDir → RuntimeDir
clear_pid d = record d { pid_file = absent }

-- `_cleanup_socket`
unfoldable pub cleanup_socket : RuntimeDir → RuntimeDir
cleanup_socket d = record d { socket = false }

-- `pid_alive`, of what `os.kill(pid, 0)` answers; `none` is an exception.
unfoldable pub pid_alive : Kill → Option Bool
pid_alive no_process = some false
pid_alive not_permitted = some true
pid_alive overflow = none
pid_alive delivered = some true

-- `is_running`; `probe` is `os.kill` with signal 0, and `none` an exception.
unfoldable pub is_running : (ℤ → Kill) → RuntimeDir → Option Bool × RuntimeDir
unfolding read_pid clear_pid pid_alive
is_running probe d = elim (read_pid d) [
  | none ↦ (none, d)
  | some none ↦ (some false, d)
  | some (some pid) ↦ elim (pid_alive (probe pid)) [
    | none ↦ (none, d)
    | some false ↦ (some false, clear_pid d)
    | some true ↦ (some true, d)
  ]
]
