-- ===== src/Lib.antt =====
-- mavctl drives a MAVLink vehicle for agents: a command line talks to a daemon, the daemon asks
-- its safety guards before each command that changes the vehicle, sends it through the adapter
-- and follows long commands in an operation registry. This library models the parts that decide.
--
-- - Guards (src/mavctl/daemon/guards.py): Guards/Decision has the configuration, the shape of a
--   decision and the two gates (`_preamble`), Guards/Ground the ground evidence
--   (`_classify_ground_state`, `_is_fresh_age`, `_reject_unless_grounded`), Guards/Flight and
--   Guards/Mission the nine `check_...` functions. A name is kept where the source has one;
--   `arm_checks` and the like are the parts of a guard behind its gates. Guards/Commands puts the
--   nine into one type of commands, over which the theorems range.
-- - Operations (src/mavctl/daemon/operations.py): Operations/Registry has `Operation` and
--   `OperationRegistry`. Operation objects are shared between the registry and its observers, so
--   they stand on a heap and are named by addresses; a `KeyError` is `none`. Operations/Invariant
--   says what holds between calls, Operations/Calls is the transition function over the calls
--   the daemon makes while it runs, and Operations/Traces the histories of such calls.
--   Operations/Owner is the specification: a single owner with epochs, and no heap.
-- - Missions (src/mavctl/models/mission.py): Missions/Schema has the checks of the pydantic
--   models, Missions/Wire the mapping to and from `MISSION_ITEM_INT` fields, Missions/HomeSlot
--   the recognition of the home slot.
-- - Adapter (src/mavctl/adapter/pymavlink_adapter.py): Adapter/Upload is `upload_mission`,
--   Adapter/Count the question for the mission count (`get_mission_count`,
--   `_request_count_locked`), Adapter/Download `download_mission`, Adapter/Clear
--   `clear_mission`. A transaction is a machine driven by the ends of its waits (Adapter/Inbox): a
--   message that `_wait_mission` hands over, or a time-out, with the clock readings that the code
--   makes. A message that the transaction does not accept is an event that changes nothing, as the
--   wait drops it. The overall deadline is an argument, and a theorem that a transaction ends asks
--   for a time-out at or after it.
--   Adapter/Link is the target lock and the store of ACKs (`_on_heartbeat`, `_is_locked_target`,
--   `_on_command_ack`), Adapter/Exchange is `_send_command` with `_wait_ack_quarantine` and
--   `_await_ack`: the reader thread's stores and the checks of the waiting thread alternate in
--   any order. The target is locked before the exchange and stays, as Adapter/LockFinal has it.
--   Adapter/Verbs has the verbs that send a command (`arm` to `start_mission`), their parameters and
--   the frames of an exchange; the ids come from the dialect and are the parameter `Codes`.
--   Adapter/Dialect has the messages that fill the snapshot, Adapter/Snapshot its fields,
--   Adapter/Handlers the handlers `_on_...` and `_handle_message`, Adapter/Observation `get_state`
--   and `get_telemetry`. What pymavlink's dialect, `math` and the formatting of numbers give is the
--   parameter `Dialect`; a handler's clock readings and its message's source come with the message.
-- - Server (src/mavctl/daemon/server.py): Server/Interface is the interface of the vehicle
--   (`VehicleAdapter` and its exceptions, src/mavctl/adapter/base.py), Server/Params and
--   Server/Response what a request and an answer contain, Server/Replies the answers that
--   handlers share. Server/Flight, Server/Missions and Server/Dispatch have a function `m_...` for
--   each handler `_m_...`, the table of methods and `_dispatch`. A handler's part before and under
--   `_command_lock` is one step on the state of Server/World: the vehicle behind the adapter, the
--   registry and the stop event. Server/Observe is one round of the observer loops
--   (`_observe_operation`, `_spawn_operation_watch`), which run outside the lock; Server/Sessions
--   lets requests, rounds and movements of the vehicle follow each other in any order.
--   Server/Connection is `_handle_client` and the answer that a request gets in the end.
-- - Client (src/mavctl/daemon/wire.py and client.py): Client/Wire has the frames, Client/Socket
--   `_read_frame` and `call_daemon`; what the socket does is data. Client/Transparent puts a call
--   of the client in front of the server.
-- - Process (src/mavctl/daemon/process.py and __main__.py): Process/Files is the pid file,
--   Process/Lifecycle the loops of `spawn` and `stop`, Process/Entry the daemon's arguments and the
--   server that is made of them.
-- - Cli (src/mavctl/cli/app.py and render.py): Cli/Terminal has `_call`, the checks of options and
--   the exit codes, Cli/Flight and Cli/Mission a function for each command, Cli/Daemon those that
--   manage the process. Cli/Invocation puts the commands that ask the daemon into one type. The
--   client is an interface of the command line (`Terminal`), over any state behind it; Cli/EndToEnd,
--   Cli/Contract and Cli/Honest have the daemon behind it.
-- - Models (src/mavctl/models/): the records and enumerations that these parts exchange.
-- - Prelude: numbers, floats, lists and texts. Examples: the theorems at concrete values.
--
-- A float is an exact multiple of 10⁻⁹, NaN or an infinity, so the rounding of binary fractions is
-- left out; `round` rounds half-way cases to even, as Python does. Clock readings are floats that
-- the functions take as arguments, nanoseconds in the adapter's exchanges and transactions. The ids
-- of `uuid4` are arguments too, and a theorem that needs a new id to be unused says so. No
-- definition uses fuel: every loop is a structural recursion on the list or the history it reads.
-- Texts meant for people (message, hint, detail, note) are left out. Calls on the registry are
-- atomic, as they are in the single thread of the daemon's loop.
--
-- What Python and pydantic do with a JSON value (`str`, `float`, the types of a mission's fields) is
-- a parameter of the server (`Readers`), and so is the adapter: its verbs return, raise one of its
-- exceptions or another one, and change its state in any way. Between a handler's snapshot and its
-- verb nothing else changes that state.
--
-- What `json`, UTF-8 and pydantic make of a message is a parameter (`Codec`), and a theorem that
-- needs a message to survive says so. What the operating system answers (sockets, `os.kill`, a
-- starting process, a file that cannot be read or is not UTF-8) is data, except that the files of the
-- runtime directory can be removed. What typer and argparse read from their tokens is data too: the
-- arguments come with the right types.
--
-- A `MISSION_ITEM_INT` holds its altitude and parameters in 32 bits. The mapping of Missions/Wire is
-- about the numbers before a message is made and after one is read; what the message makes of a
-- number in between is the parameter of Missions/Carried, and in the adapter what is received is
-- data.
--
-- Not modelled: the rest of the adapter (opening and closing the link, stream requests, the
-- bookkeeping of mission sessions, exceptions of the transport), the tasks and signals of the
-- server (`serve`, `_shutdown`), the start of the child process and its log, and the texts that the
-- command line prints.
pub mod Prelude
pub mod Models
pub mod Guards
pub mod Operations
pub mod Examples
pub mod Missions
pub mod Adapter
pub mod Server
pub mod Client
pub mod Cli
pub mod Process
