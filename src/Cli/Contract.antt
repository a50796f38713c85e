-- ===== src/Cli/Contract.antt =====
-- The exit codes of the command line, when the daemon is reached and its answer arrives.
use mathlib.Core.Path.{subst}
use mavctl.Prelude.{◌≡◌, ◌⊎◌, refl, sym, ap, inl, inr, false, none, some, Float, String, if_cases}
use mavctl.Models.Protocol.{code, usage_error}
use mavctl.Operations.Registry.{Registry}
use mavctl.Server.Params.{RpcRequest}
use mavctl.Server.Response.{DaemonResponse, Payload, success, failure, response_code}
use mavctl.Server.World.{DaemonServer, World, Outside}
use mavctl.Server.Dispatch.{dispatch}
use mavctl.Server.Connection.{answer}
use mavctl.Client.Socket.{Reply, answered}
use mavctl.Cli.Terminal.{Terminal, Ending, exit_code, accept_reply}
use mavctl.Cli.Mission.{write_output}
use mavctl.Cli.Invocation.{Invocation, mission_download, run}
use mavctl.Cli.Asked.{
  Reads, Carries, IsRefused, IsCrashed, after, Asks, refuses, crashes, asks, run-Asks,
}

module _ {S : Type 0} (terminal : Terminal S) where
  -- A downloaded mission whose file cannot be written.
  abbrev pub IsUnwritten : Invocation → DaemonResponse → Type 0
  IsUnwritten (mission_download (some output) json_mode) (success payload) =
      terminal.write_text output payload ≡ false
  IsUnwritten _ _ = ⊥

  written_code :
      (output : String) (payload : Payload)
      → (exit_code (write_output terminal (some output) payload)
          ≡ code (response_code (success payload)))
        ⊎ ((terminal.write_text output payload ≡ false)
            × (exit_code (write_output terminal (some output) payload) ≡ code usage_error))
  unfolding exit_code write_output response_code
  written_code output payload =
      if_cases
        (λ (ending : Ending Payload).
          (exit_code ending ≡ code (response_code (success payload)))
          ⊎ ((terminal.write_text output payload ≡ false) × (exit_code ending ≡ code usage_error)))
        (terminal.write_text output payload) (λ _. inl refl) (λ e. inr (e, refl))

  -- The code is the response's own, or the one for wrong usage if the file cannot be written.
  accept_reply-code :
      (i : Invocation) (response : DaemonResponse)
      → (exit_code (accept_reply (after terminal i) (answered response))
          ≡ code (response_code response))
        ⊎ (IsUnwritten i response
            × (exit_code (accept_reply (after terminal i) (answered response)) ≡ code usage_error))
  unfolding exit_code accept_reply response_code write_output
  accept_reply-code i (failure c detail) = inl refl
  accept_reply-code (mission_download (some output) json_mode) (success payload) =
      written_code output payload
  accept_reply-code (mission_download none json_mode) (success payload) = inl refl
  accept_reply-code _ (success payload) = inl refl

module _ {V : Type 0} (self : DaemonServer V) (terminal : Terminal (World V)) (x : Outside)
    (settled : Registry) (w : World V) where
  -- A call is served by `_dispatch`, and the client receives the answer.
  abbrev pub Arrives : Type 0
  Arrives =
      (q : RpcRequest) (timeout : Float)
      → terminal.call_daemon q timeout w
        ≡ (answered (answer (dispatch self x (some q) w).0 settled), (dispatch self x (some q) w).1)

  -- How a command line ends.
  abbrev pub Ends : Invocation → Ending Payload × World V → Type 0
  Ends i result =
      (IsRefused terminal i × (exit_code result.0 ≡ code usage_error) × (result.1 ≡ w))
      ⊎ (IsCrashed terminal i × (exit_code result.0 ≡ 1) × (result.1 ≡ w))
      ⊎ ((q : RpcRequest) × Carries self.py terminal i q
          × (result.1 ≡ (dispatch self x (some q) w).1)
          × (let response = answer (dispatch self x (some q) w).0 settled in
              (exit_code result.0 ≡ code (response_code response))
              ⊎ (IsUnwritten terminal i response × (exit_code result.0 ≡ code usage_error))))

  Asks-Ends :
      (i : Invocation) {result : Ending Payload × World V}
      → Arrives
      → Asks self.py terminal i w result
      → Ends i result
  unfolding exit_code
  Asks-Ends i arrives (refuses bad) = inl (bad, refl, refl)
  Asks-Ends i arrives (crashes bad) = inr (inl (bad, refl, refl))
  Asks-Ends i arrives (asks q timeout good calm h) = inr (
      inr (
        q,
        h,
        ap (λ (p : Reply DaemonResponse × World V). p.1) (arrives q timeout),
        subst
            (λ (reply : Reply DaemonResponse).
              let response = answer (dispatch self x (some q) w).0 settled in
              let ending = accept_reply (after terminal i) reply in
              (exit_code ending ≡ code (response_code response))
              ⊎ (IsUnwritten terminal i response × (exit_code ending ≡ code usage_error)))
            (sym (ap (λ (p : Reply DaemonResponse × World V). p.0) (arrives q timeout)))
            (accept_reply-code terminal i (answer (dispatch self x (some q) w).0 settled)),
      ))

  -- The exit codes, when the daemon is reached and answers. A command line that is refused ends with
  -- the code for wrong usage and asks nothing; one whose mission file is not UTF-8 ends with 1, the
  -- code of an exception, and asks nothing. Any other is served as one request that says what was
  -- typed, and ends with the code of the daemon's answer; only a download whose file cannot be
  -- written ends with the code for wrong usage instead.
  pub run-exit_code :
      (i : Invocation) → Reads self.py terminal → Arrives → Ends i (run terminal i w)
  run-exit_code i reads arrives = Asks-Ends i arrives (run-Asks self.py terminal i w reads)
