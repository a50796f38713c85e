-- ===== src/Server/Connection.antt =====
-- A connection to the daemon: `_handle_client` of src/mavctl/daemon/server.py.
use mavctl.Prelude.{ℕ, ◌*◌, Option, none, some, [], ◌∷◌, length, ltb, if◌then◌else◌}
use mavctl.Models.Protocol.{general_error}
use mavctl.Operations.Registry.{Registry}
use mavctl.Client.Wire.{Bytes, Codec, decode}
use mavctl.Server.Params.{RpcRequest}
use mavctl.Server.Response.{DaemonResponse, failure}
use mavctl.Server.Response
use mavctl.Server.Replies.{command_result, finish_operation_wait}
use mavctl.Server.World.{DaemonServer, World, Outside, Started, Handled, answered, escaped, started}
use mavctl.Server.Dispatch.{dispatch}

-- `_MAX_FRAME`
abbrev pub max_frame : ℕ
max_frame = 64 * 1024

-- The part of `_handle_client` up to the answer; `none` is a connection that is closed without one.
unfoldable pub handle_client :
    {V : Type 0}
    → Codec RpcRequest
    → DaemonServer V
    → Outside
    → Bytes
    → World V
    → Option Handled × World V
unfolding decode dispatch
handle_client requests self x [] w = (none, w)
handle_client requests self x (b ∷ bs) w =
    let (handled, later) = dispatch self x (decode requests (b ∷ bs)) w in
    if ltb max_frame (length (b ∷ bs)) then (none, w) else (some handled, later)

-- The response of a command whose operation is started: at once, or after the wait for it, with the
-- registry as it then is.
unfoldable pub answer_started : Started → Registry → DaemonResponse
unfolding command_result finish_operation_wait
answer_started t r = elim t.wait [
  | none ↦ command_result t.action t.outcome none (some (r.heap t.address).operation_id)
  | some timeout ↦ finish_operation_wait t.action t.outcome (r.heap t.address)
]

-- The response of a request. No exception is left of a dispatched one.
unfoldable pub answer : Handled → Registry → DaemonResponse
unfolding answer_started
answer (answered response) r = response
answer escaped r = failure general_error Response.nothing
answer (started t) r = answer_started t r
