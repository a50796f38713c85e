-- ===== src/Client/Transparent.antt =====
-- A call across the socket is a call of `_dispatch`.
use mavctl.Prelude.{
  ℕ, ◌≡◌, ◌≢◌, ◌≤◌, refl, sym, false, Option, none, some, List, [], ◌∷◌, ◌++◌, map, All, arith,
  length, ltb,
}
use mavctl.Operations.Registry.{Registry}
use mavctl.Server.Params.{RpcRequest}
use mavctl.Server.Response.{DaemonResponse}
use mavctl.Server.World.{DaemonServer, World, Outside, Handled}
use mavctl.Server.Dispatch.{dispatch}
use mavctl.Server.Connection.{max_frame, handle_client, answer}
use mavctl.Client.Wire.{Bytes, Codec, Survives, encode, decode}
use mavctl.Client.Socket.{Recv, chunk, sent, Reply, answered, accept_frame, finish_call}
use mavctl.Client.Delivery.{joined, IsFilled, read_frame-joined, frame-ne-nil}

-- What comes from outside during a call of a daemon: what `_dispatch` takes, the registry at the end
-- of a wait, and how the socket hands over the response's bytes.
pub record Trip : Type 0 where
  pub outside : Outside
  pub settled : Registry
  pub cut : Bytes → List Recv

module _ {V : Type 0} (requests : Codec RpcRequest) (responses : Codec DaemonResponse)
    (self : DaemonServer V) (trip : Trip) where
  -- What the client receives of the answer.
  unfoldable pub received : Option Handled → List Recv
  unfolding encode
  received none = []
  received (some handled) = trip.cut (encode responses (answer handled trip.settled))

  -- A call of a daemon that listens: the frame of `call_daemon` is served by `_handle_client`.
  unfoldable pub call_served : RpcRequest → World V → Reply DaemonResponse × World V
  unfolding encode handle_client finish_call received
  call_served q w =
      let (handled, later) = handle_client requests self trip.outside (encode requests q) w in
      (finish_call responses (sent (received handled)), later)

le-not-ltb : (a b : ℕ) → a ≤ b → ltb b a ≡ false
le-not-ltb a b h = ground arith

handle_client-line :
    {V : Type 0} (requests : Codec RpcRequest) (self : DaemonServer V) (x : Outside) (line : Bytes)
    (q : RpcRequest) (w : World V)
    → line ≢ []
    → length line ≤ max_frame
    → decode requests line ≡ some q
    → handle_client requests self x line w
      ≡ (some (dispatch self x (some q) w).0, (dispatch self x (some q) w).1)
unfolding handle_client
handle_client-line requests self x [] q w some_ short read = absurd (some_ refl)
handle_client-line requests self x (b ∷ bs) q w some_ short read =
    rw (read, le-not-ltb (length (b ∷ bs)) max_frame short) refl

accept_frame-line :
    (responses : Codec DaemonResponse) (line : Bytes) (response : DaemonResponse)
    → line ≢ []
    → decode responses line ≡ some response
    → accept_frame responses (some line) ≡ answered response
unfolding accept_frame decode
accept_frame-line responses [] response some_ read = absurd (some_ refl)
accept_frame-line responses (b ∷ bs) response some_ read = ground arith

module _ {V : Type 0} (requests : Codec RpcRequest) (responses : Codec DaemonResponse)
    (self : DaemonServer V) (trip : Trip) where
  -- The transport is transparent: a request whose frame is not too long and whose answer arrives,
  -- cut into pieces in any way, is answered as `_dispatch` answers it, and changes the daemon as
  -- `_dispatch` does.
  pub call_served-dispatch :
      (q : RpcRequest) (w : World V) (pieces : List Bytes) (later : List Recv)
      → Survives requests q
      → length (encode requests q) ≤ max_frame
      → let (handled, s) = dispatch self trip.outside (some q) w in
        let frame = encode responses (answer handled trip.settled) in
        Survives responses (answer handled trip.settled)
        → trip.cut frame ≡ map chunk pieces ++ later
        → All IsFilled pieces
        → joined pieces ≡ frame
        → call_served requests responses self trip q w ≡ (answered (answer handled trip.settled), s)
  unfolding call_served finish_call encode decode received
  call_served-dispatch q w pieces later asked short told arrives filled whole =
      let handled : Handled = (dispatch self trip.outside (some q) w).0 in
      let response : DaemonResponse = answer handled trip.settled in
      rw
        (
          handle_client-line requests self trip.outside (encode requests q) q w
              (λ e. frame-ne-nil (requests.dumps q) (sym e)) short asked.loads-dumps,
          arrives,
          read_frame-joined pieces (responses.dumps response) later told.one_line filled whole,
          accept_frame-line responses (encode responses response) response
              (λ e. frame-ne-nil (responses.dumps response) (sym e)) told.loads-dumps,
        )
        refl
