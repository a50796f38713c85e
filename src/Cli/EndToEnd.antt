-- ===== src/Cli/EndToEnd.antt =====
-- From the command line to the vehicle: the command line's functions over the daemon.
use mathlib.Core.Path.{subst}
use mavctl.Prelude.{◌≡◌, ◌⊎◌, sym, ◌∙◌, inl, inr, true, false, some, Float}
use mavctl.Guards.Commands.{Command, GatesOpen}
use mavctl.Guards.Needs.{Needs}
use mavctl.Server.Params.{RpcRequest, flag}
use mavctl.Server.World.{DaemonServer, World, Outside}
use mavctl.Server.Dispatch.{dispatch}
use mavctl.Server.Sent.{Effect, untouched, downloads, counts, sends, effect, Sent}
use mavctl.Server.Dispatched.{dispatch-Effect}
use mavctl.Server.Response.{Payload}
use mavctl.Cli.Terminal.{Terminal, Ending}
use mavctl.Cli.Invocation.{
  Invocation, status, telemetry, operation_get, arm, disarm, mode, takeoff, land, rtl,
  mission_start, mission_upload, mission_download, mission_clear, run,
}
use mavctl.Cli.Asked.{Reads, Carries, Asks, refuses, crashes, asks, run-Asks}
use mavctl.Cli.Verbs.{says_confirm, says_dry, IsDownload, IsStart}
use mavctl.Cli.Typed.{Typed, query-not-Typed, Asked-Typed, downloads-IsDownload, counts-IsStart}

module _ {V : Type 0} (self : DaemonServer V) (terminal : Terminal (World V)) where
  -- A call reaches the daemon's `_dispatch`, or it does not reach the daemon.
  abbrev pub Reaches : Type 0
  Reaches =
      (q : RpcRequest) (timeout : Float) (w : World V)
      → ((terminal.call_daemon q timeout w).1 ≡ w)
        ⊎ ((x : Outside) × ((terminal.call_daemon q timeout w).1 ≡ (dispatch self x (some q) w).1))

  -- What a command line may do to the vehicle `v` of the daemon.
  pub data Does (i : Invocation) (v : V) : V → Type 0 where
    leaves : Does i v v
    reads_mission :
        IsDownload i
        → (self.adapter.get_state v).connected ≡ true
        → Does i v (self.adapter.download_mission v).1
    reads_count :
        IsStart i
        → (self.adapter.get_state v).connected ≡ true
        → Does i v (self.adapter.get_mission_count v).1
    commands :
        (c : Command)
        → Typed terminal i c
        → says_confirm i ≡ true
        → says_dry i ≡ false
        → GatesOpen (self.adapter.get_state v) true self.guard_config
        → Needs c (self.adapter.get_state v) self.guard_config
        → Does i v (effect self.adapter c v)

  -- The two flags, for the commands that have them.
  pub carried_confirm :
      (i : Invocation) (q : RpcRequest) (c : Command)
      → Typed terminal i c
      → Carries self.py terminal i q
      → flag "confirm" q.params ≡ says_confirm i
  carried_confirm (arm confirm dry_run) q c t h = h.1.0
  carried_confirm (disarm confirm force dry_run) q c t h = h.1.0
  carried_confirm (mode name o) q c t h = h.1.confirm
  carried_confirm (takeoff alt o) q c t h = h.1.confirm
  carried_confirm (land o) q c t h = h.1.confirm
  carried_confirm (rtl o) q c t h = h.1.confirm
  carried_confirm (mission_start o) q c t h = h.1.confirm
  carried_confirm (mission_upload path confirm dry_run) q c t h = h.1.0
  carried_confirm (mission_clear confirm dry_run) q c t h = h.1.0
  carried_confirm status q c t h = absurd (query-not-Typed terminal status c tt t)
  carried_confirm telemetry q c t h = absurd (query-not-Typed terminal telemetry c tt t)
  carried_confirm (operation_get id) q c t h =
      absurd (query-not-Typed terminal (operation_get id) c tt t)
  carried_confirm (mission_download output json_mode) q c t h =
      absurd (query-not-Typed terminal (mission_download output json_mode) c tt t)

  pub carried_dry :
      (i : Invocation) (q : RpcRequest) (c : Command)
      → Typed terminal i c
      → Carries self.py terminal i q
      → flag "dry_run" q.params ≡ says_dry i
  carried_dry (arm confirm dry_run) q c t h = h.1.1
  carried_dry (disarm confirm force dry_run) q c t h = h.1.1
  carried_dry (mode name o) q c t h = h.1.dry_run
  carried_dry (takeoff alt o) q c t h = h.1.dry_run
  carried_dry (land o) q c t h = h.1.dry_run
  carried_dry (rtl o) q c t h = h.1.dry_run
  carried_dry (mission_start o) q c t h = h.1.dry_run
  carried_dry (mission_upload path confirm dry_run) q c t h = h.1.1
  carried_dry (mission_clear confirm dry_run) q c t h = h.1.1
  carried_dry status q c t h = absurd (query-not-Typed terminal status c tt t)
  carried_dry telemetry q c t h = absurd (query-not-Typed terminal telemetry c tt t)
  carried_dry (operation_get id) q c t h =
      absurd (query-not-Typed terminal (operation_get id) c tt t)
  carried_dry (mission_download output json_mode) q c t h =
      absurd (query-not-Typed terminal (mission_download output json_mode) c tt t)

  sent-Does :
      (i : Invocation) (q : RpcRequest) (v : V) (c : Command)
      → Carries self.py terminal i q
      → Sent self q v c
      → Does i v (effect self.adapter c v)
  sent-Does i q v c h sent =
      let t : Typed terminal i c = Asked-Typed terminal self q v i c h sent.asked in
      let confirmed : flag "confirm" q.params ≡ true = (sent.gates).agreed in
      commands c t (sym (carried_confirm i q c t h) ∙ confirmed)
        (sym (carried_dry i q c t h) ∙ sent.not_dry)
        (subst (λ b. GatesOpen (self.adapter.get_state v) b self.guard_config) confirmed sent.gates)
        sent.needs

  Effect-Does :
      (i : Invocation) (q : RpcRequest) (v : V) {u : V}
      → Carries self.py terminal i q
      → Effect self q v u
      → Does i v u
  Effect-Does i q v h untouched = leaves
  Effect-Does i q v h (downloads m up) =
      reads_mission (downloads-IsDownload terminal self q v i h m) up
  Effect-Does i q v h (counts m up) = reads_count (counts-IsStart terminal self q v i h m) up
  Effect-Does i q v h (sends c sent) = sent-Does i q v c h sent

  Asks-Does :
      (i : Invocation) (w : World V) {result : Ending Payload × World V}
      → Reaches
      → Asks self.py terminal i w result
      → Does i w.vehicle result.1.vehicle
  Asks-Does i w reach (refuses bad) = leaves
  Asks-Does i w reach (crashes bad) = leaves
  Asks-Does i w reach (asks q timeout good calm h) = elim (reach q timeout w) [
    | inl away ↦ subst (λ (s : World V). Does i w.vehicle s.vehicle) (sym away) leaves
    | inr (x, e) ↦
        subst (λ (s : World V). Does i w.vehicle s.vehicle) (sym e)
          (Effect-Does i q w.vehicle h (dispatch-Effect self x w q))
  ]

  -- Whatever is typed, the vehicle is left alone, or a download reads its mission on a live link,
  -- or a mission start reads its mission count on a live link, or it gets the command that was
  -- typed, with the arguments that were typed. That needs `--confirm` and no `--dry-run`, a fresh
  -- heartbeat, and a vehicle in the state that the command needs. The daemon is asked through a
  -- client whose calls reach it or do not.
  pub run-Does :
      (i : Invocation) (w : World V)
      → Reads self.py terminal
      → Reaches
      → Does i w.vehicle (run terminal i w).1.vehicle
  run-Does i w reads reach = Asks-Does i w reach (run-Asks self.py terminal i w reads)
