-- ===== src/Cli/Honest.antt =====
-- What the exit code 0 of a command line says about the vehicle.
use mathlib.Core.Path.{subst}
use mavctl.Prelude.{
  ◌≡◌, refl, sym, ◌∙◌, true, false, none, some, Option, String, Float, if_cases, arith,
}
use mavctl.Models.Protocol.{code, ExitCode}
use mavctl.Models.Protocol
use mavctl.Guards.Commands.{Command, check}
use mavctl.Operations.Registry.{Registry}
use mavctl.Server.Interface.{returned}
use mavctl.Server.Params.{RpcRequest}
use mavctl.Server.Response.{
  DaemonResponse, success, failure, Payload, executed, mission_outcome, downloaded, vehicle_state,
  telemetry, nothing_to_do, dry_run, already_running, pong, stopping, operation,
}
use mavctl.Server.World.{DaemonServer, World, Outside}
use mavctl.Server.Dispatch.{dispatch}
use mavctl.Server.Connection.{answer}
use mavctl.Server.Backed.{Ended, Transacted, Backed, Needless}
use mavctl.Server.Vouched.{dispatch-Backed}
use mavctl.Client.Socket.{Reply, answered, not_running, broken, crashed}
use mavctl.Cli.Terminal.{Terminal, Ending, emitted, exit_code, accept_reply}
use mavctl.Cli.Mission.{write_output}
use mavctl.Cli.Invocation.{Invocation, mission_download, run}
use mavctl.Cli.Asked.{Reads, Carries, after, Asks, refuses, crashes, asks, run-Asks}
use mavctl.Cli.Verbs.{says_confirm, says_dry, IsDownload, IsStatus, IsTelemetry, IsOperation}
use mavctl.Cli.Typed.{
  Typed, Asked-Typed, downloads-IsDownload, asks-IsStatus, asks-IsTelemetry, asks-IsOperation,
  never_pings, never_stops,
}
use mavctl.Cli.EndToEnd.{carried_confirm, carried_dry}

module _ {V : Type 0} (self : DaemonServer V) (terminal : Terminal (World V)) where
  -- An answer that the client receives is the one that the daemon gives to the request.
  abbrev pub Truthful : Type 0
  Truthful =
      (q : RpcRequest) (timeout : Float) (w : World V) (response : DaemonResponse)
      → (terminal.call_daemon q timeout w).0 ≡ answered response
      → (x : Outside) × (settled : Registry) × (answer (dispatch self x (some q) w).0 settled
          ≡ response)

  -- The command that was typed has nothing left to do on the vehicle.
  abbrev pub IsDone : Invocation → V → Type 0
  IsDone i v =
      (c : Command) × Typed terminal i c
      × ((check c (self.adapter.get_state v) (says_confirm i) self.guard_config).already_satisfied
          ≡ true)

  -- What a result says of the vehicle `v`, when it is the result of this command line.
  abbrev pub Tells : Invocation → V → Payload → Type 0
  Tells i v (executed action outcome waited operation_id) =
      (c : Command) × Typed terminal i c
      × (says_dry i ≡ false)
      × Ended self.adapter c v outcome
      × (outcome.accepted ≡ true)
  Tells i v (mission_outcome outcome) =
      (c : Command) × Typed terminal i c
      × (says_dry i ≡ false)
      × Transacted self.adapter c v outcome
  Tells i v (downloaded mission) =
      IsDownload i × ((self.adapter.download_mission v).0 ≡ returned mission)
  Tells i v (vehicle_state state) = IsStatus i × (state ≡ self.adapter.get_state v)
  Tells i v (telemetry t) = IsTelemetry i × (t ≡ self.adapter.get_telemetry v)
  Tells i v (nothing_to_do action) = IsDone i v
  Tells i v already_running = IsDone i v
  Tells i v (dry_run action would satisfied checks) =
      (c : Command) × Typed terminal i c × (says_dry i ≡ true)
  Tells i v (operation found) = IsOperation i
  Tells i v (pong connection_string) = ⊥
  Tells i v stopping = ⊥

  -- A command line that ends with the code 0 has emitted a result that tells the truth.
  abbrev pub IsHonest : Invocation → V → Ending Payload → Type 0
  IsHonest i v ending =
      exit_code ending ≡ 0 → (payload : Payload) × (ending ≡ emitted payload) × Tells i v payload

  module _ (i : Invocation) (q : RpcRequest) (v : V) (h : Carries self.py terminal i q) where
    Needless-IsDone : Needless self q v → IsDone i v
    Needless-IsDone (c, asked, done) =
        let t : Typed terminal i c = Asked-Typed terminal self q v i c h asked in
        (
          c,
          t,
          subst
              (λ b.
                (check c (self.adapter.get_state v) b self.guard_config).already_satisfied ≡ true)
              (carried_confirm self terminal i q c t h) done,
        )

    Backed-Tells : (payload : Payload) → Backed self q v (success payload) → Tells i v payload
    Backed-Tells (executed action outcome waited operation_id) (c, sent, ended, good) =
        let t : Typed terminal i c = Asked-Typed terminal self q v i c h sent.asked in
        (c, t, sym (carried_dry self terminal i q c t h) ∙ sent.not_dry, ended, good)
    Backed-Tells (mission_outcome outcome) (c, sent, ended) =
        let t : Typed terminal i c = Asked-Typed terminal self q v i c h sent.asked in
        (c, t, sym (carried_dry self terminal i q c t h) ∙ sent.not_dry, ended)
    Backed-Tells (downloaded mission) (m, e) = (downloads-IsDownload terminal self q v i h m, e)
    Backed-Tells (vehicle_state state) (m, e) = (asks-IsStatus terminal self q v i h m, e)
    Backed-Tells (telemetry t) (m, e) = (asks-IsTelemetry terminal self q v i h m, e)
    Backed-Tells (nothing_to_do action) n = Needless-IsDone n
    Backed-Tells already_running n = Needless-IsDone n
    Backed-Tells (dry_run action would satisfied checks) (c, asked, dry) =
        let t : Typed terminal i c = Asked-Typed terminal self q v i c h asked in
        (c, t, sym (carried_dry self terminal i q c t h) ∙ dry)
    Backed-Tells (operation found) m = asks-IsOperation terminal self q v i h m
    Backed-Tells (pong connection_string) m = never_pings terminal self q v i h m
    Backed-Tells stopping m = never_stops terminal self q v i h m

    -- Once the result is printed or written.
    written-IsHonest :
        (output : Option String) (payload : Payload)
        → Tells i v payload
        → IsHonest i v (write_output terminal output payload)
    unfolding exit_code write_output
    written-IsHonest none payload tells = λ zero. (payload, refl, tells)
    written-IsHonest (some output) payload tells =
        if_cases (IsHonest i v) (terminal.write_text output payload)
          (λ _ zero. (payload, refl, tells)) (λ _ zero. absurd (omega arith))

  after-IsHonest :
      (i : Invocation) (q : RpcRequest) (v : V) (payload : Payload)
      → Carries self.py terminal i q
      → Tells i v payload
      → IsHonest i v (after terminal i payload)
  after-IsHonest (mission_download output json_mode) q v payload h tells =
      written-IsHonest (mission_download output json_mode) q v h output payload tells
  after-IsHonest _ q v payload h tells = λ zero. (payload, refl, tells)

  accept-IsHonest :
      (i : Invocation) (q : RpcRequest) (v : V) (reply : Reply DaemonResponse)
      → Carries self.py terminal i q
      → ((response : DaemonResponse) → reply ≡ answered response → Backed self q v response)
      → IsHonest i v (accept_reply (after terminal i) reply)
  unfolding exit_code accept_reply
  accept-IsHonest i q v (answered (success payload)) h backed =
      after-IsHonest i q v payload h (Backed-Tells i q v h payload (backed (success payload) refl))
  accept-IsHonest i q v (answered (failure Protocol.success detail)) h backed =
      absurd (backed (failure Protocol.success detail) refl)
  accept-IsHonest i q v (answered (failure c detail)) h backed = λ zero. absurd (omega arith)
  accept-IsHonest i q v not_running h backed = λ zero. absurd (omega arith)
  accept-IsHonest i q v broken h backed = λ zero. absurd (omega arith)
  accept-IsHonest i q v crashed h backed = λ zero. absurd (omega arith)

  truthful-Backed :
      (q : RpcRequest) (timeout : Float) (w : World V)
      → Truthful
      → (response : DaemonResponse) → (terminal.call_daemon q timeout w).0 ≡ answered response
      → Backed self q w.vehicle response
  truthful-Backed q timeout w truthful response e =
      let (x, settled, same) = truthful q timeout w response e in
      subst (Backed self q w.vehicle) same (dispatch-Backed self x w q settled)

  Asks-IsHonest :
      (i : Invocation) (w : World V) {result : Ending Payload × World V}
      → Truthful
      → Asks self.py terminal i w result
      → IsHonest i w.vehicle result.0
  unfolding exit_code
  Asks-IsHonest i w truthful (refuses bad) = λ zero. absurd (omega arith)
  Asks-IsHonest i w truthful (crashes bad) = λ zero. absurd (omega arith)
  Asks-IsHonest i w truthful (asks q timeout good calm h) =
      accept-IsHonest i q w.vehicle (terminal.call_daemon q timeout w).0 h
        (truthful-Backed q timeout w truthful)

  -- A command line that ends with the code 0 has emitted a result, of the kind that it asks for.
  -- What the result calls executed is the command that was typed, without `--dry-run`, and the
  -- outcome is the vehicle's, which accepted it; the outcome of an upload or a clear is the
  -- vehicle's too. A state, a telemetry and a downloaded mission are what the adapter gave. Where
  -- nothing was left to do, the guard of the typed command finds so; a dry run was typed with
  -- `--dry-run`. An answer that the client receives is taken to be the one of the daemon's
  -- `_dispatch`; a call may also fail.
  pub run-IsHonest :
      (i : Invocation) (w : World V)
      → Reads self.py terminal
      → Truthful
      → IsHonest i w.vehicle (run terminal i w).0
  run-IsHonest i w reads truthful = Asks-IsHonest i w truthful (run-Asks self.py terminal i w reads)
