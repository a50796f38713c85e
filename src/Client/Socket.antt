-- ===== src/Client/Socket.antt =====
-- `call_daemon`, `_read_frame` and `is_daemon_running` of src/mavctl/daemon/client.py. What the
-- socket does is data: how the connection is made, and what each `recv` returns.
use mathlib.Core.Option
use mavctl.Prelude.{
  Bool, true, false, Option, none, some, List, [], ◌∷◌, ◌++◌, String, Float, seconds, if◌then◌else◌,
}
use mavctl.Server.Params.{Params, RpcRequest}
use mavctl.Server.Response.{DaemonResponse, success, failure}
use mavctl.Client.Wire.{Bytes, Codec, has_newline, encode, decode}

-- `sock.recv(4096)`: some bytes, none at the end of the stream, or an `OSError`, such as a time-out.
pub data Recv : Type 0 where
  chunk : Bytes → Recv
  breaks : Recv

-- `_read_frame`; `none` is its `OSError`. At the end of the list the stream is at its end.
unfoldable pub read_frame : List Recv → Option Bytes
unfolding has_newline
read_frame [] = some []
read_frame (breaks ∷ rest) = none
read_frame (chunk [] ∷ rest) = some []
read_frame (chunk (c ∷ cs) ∷ rest) =
    let more = Option.map (λ bytes. (c ∷ cs) ++ bytes) (read_frame rest) in
    if has_newline (c ∷ cs) then some (c ∷ cs) else more

-- `settimeout`, `connect` and `sendall`: refused (no socket, or nobody listens), failed with another
-- `OSError` or a `ValueError`, ended by another exception, or the request is sent.
pub data Dial : Type 0 where
  refused failed escaped : Dial
  sent : List Recv → Dial

-- How a call ends: with a response, with `DaemonNotRunningError`, with an `OSError` or a
-- `ValueError`, or with another exception.
pub data Reply (A : Type 0) : Type 0 where
  answered : A → Reply A
  not_running broken crashed : Reply A

-- The frame that was read, decoded.
unfoldable pub accept_frame : Codec DaemonResponse → Option Bytes → Reply DaemonResponse
unfolding decode
accept_frame c none = broken
accept_frame c (some []) = not_running
accept_frame c (some (b ∷ bs)) = elim (decode c (b ∷ bs)) [
  | none ↦ broken
  | some response ↦ answered response
]

unfoldable pub finish_call : Codec DaemonResponse → Dial → Reply DaemonResponse
unfolding accept_frame read_frame
finish_call c refused = not_running
finish_call c failed = broken
finish_call c escaped = crashed
finish_call c (sent received) = accept_frame c (read_frame received)

-- `call_daemon`; `dial` is given the timeout and the frame.
unfoldable pub call_daemon :
    Codec RpcRequest
    → Codec DaemonResponse
    → (Float → Bytes → Dial)
    → String
    → Params
    → Float
    → Reply DaemonResponse
unfolding encode finish_call
call_daemon requests responses dial method params timeout =
    finish_call responses
      (dial timeout (encode requests (record { method = method; params = params })))

is_ok : DaemonResponse → Bool
is_ok (success payload) = true
is_ok (failure code detail) = false

-- `is_daemon_running`; `none` is an exception that it does not catch.
unfoldable pub is_daemon_running :
    Codec RpcRequest → Codec DaemonResponse → (Float → Bytes → Dial) → Option Bool
unfolding call_daemon is_ok
is_daemon_running requests responses dial =
    elim (call_daemon requests responses dial "ping" [] (seconds 1)) [
      | answered response ↦ some (is_ok response)
      | not_running ↦ some false
      | broken ↦ some false
      | crashed ↦ none
    ]
