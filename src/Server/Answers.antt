-- ===== src/Server/Answers.antt =====
-- What the answers of the daemon say: dry runs, a link that is down, and the exit codes of a wait.
use mavctl.Prelude.{ℕ, ◌<◌, ◌≡◌, ◌≢◌, ◌↔◌, ◌⊎◌, refl, inl, inr, true, false, some, arith}
use mavctl.Models.Protocol.{success, vehicle_not_connected, nack_timeout}
use mavctl.Models.Command.{CommandOutcome}
use mavctl.Models.Operation.{waiting, reached, link_lost, superseded, uncertain}
use mavctl.Guards.Decision.{Action}
use mavctl.Operations.Registry.{Registry}
use mavctl.Operations.Invariant.{IsValid}
use mavctl.Operations.Ownership.{states_reached}
use mavctl.Server.Params.{RpcRequest, flag}
use mavctl.Server.Response.{response_code}
use mavctl.Server.Replies.{command_result, finish_operation_wait}
use mavctl.Server.World.{DaemonServer, World, Outside, Handled, Started, answered, escaped, started}
use mavctl.Server.Dispatch.{dispatch}
use mavctl.Server.Sent.{Effect, untouched, downloads, counts, sends}
use mavctl.Server.Accepted.{Tracks, Accepted}
use mavctl.Server.Dispatched.{dispatch-Effect, dispatch-Served}

module _ {V : Type 0} (self : DaemonServer V) (x : Outside) (q : RpcRequest) (w : World V) where
  -- The registry is as it was and nothing is started.
  abbrev pub Idle : Handled × World V → Type 0
  Idle result = (result.1.operations ≡ w.operations) × ((t : Started) → result.0 ≢ started t)

  Tracks-Idle :
      (result : Handled × World V)
      → ((t : Started) → (s : Registry) → ¬ Accepted self x q w t s)
      → Tracks self x q w result
      → Idle result
  Tracks-Idle (answered response, s) never h = (h, λ t e. cc e)
  Tracks-Idle (escaped, s) never h = (h, λ t e. cc e)
  Tracks-Idle (started t, s) never h = absurd (never t s.operations h)

  -- The mission or its count is read, and no more.
  abbrev pub OnlyRead : V → Type 0
  OnlyRead v =
      (v ≡ w.vehicle)
      ⊎ ((q.method ≡ "mission_download") × (v ≡ (self.adapter.download_mission w.vehicle).1))
      ⊎ ((q.method ≡ "mission_start") × (v ≡ (self.adapter.get_mission_count w.vehicle).1))

  dry-OnlyRead : {v : V} → flag "dry_run" q.params ≡ true → Effect self q w.vehicle v → OnlyRead v
  dry-OnlyRead dry untouched = inl refl
  dry-OnlyRead dry (downloads m up) = inr (inl (m, refl))
  dry-OnlyRead dry (counts m up) = inr (inr (m, refl))
  dry-OnlyRead dry (sends c sent) = absurd (cc (dry, sent.not_dry))

  -- A dry run sends no command and starts nothing: the vehicle is as it was, except that a
  -- mission_download reads its mission and a mission_start its mission count.
  dry_run-OnlyRead :
      flag "dry_run" q.params ≡ true
      → OnlyRead (dispatch self x (some q) w).1.vehicle × Idle (dispatch self x (some q) w)
  dry_run-OnlyRead dry = (
    dry-OnlyRead dry (dispatch-Effect self x w q),
    Tracks-Idle (dispatch self x (some q) w) (λ t s a. cc (dry, (a.sent).not_dry))
        (dispatch-Served self x w q).1,
  )

  down-untouched :
      {v : V}
      → (self.adapter.get_state w.vehicle).connected ≡ false
      → Effect self q w.vehicle v
      → v ≡ w.vehicle
  down-untouched down untouched = refl
  down-untouched down (downloads m up) = cc (down, up)
  down-untouched down (counts m up) = cc (down, up)
  down-untouched down (sends c sent) = cc (down, (sent.gates).linked)

  -- While the link is down no request reaches the vehicle or starts anything.
  link_down-untouched :
      (self.adapter.get_state w.vehicle).connected ≡ false
      → ((dispatch self x (some q) w).1.vehicle ≡ w.vehicle) × Idle (dispatch self x (some q) w)
  link_down-untouched down = (
    down-untouched down (dispatch-Effect self x w q),
    Tracks-Idle (dispatch self x (some q) w) (λ t s a. cc (down, (a.sent).gates.linked))
        (dispatch-Served self x w q).1,
  )

-- After a wait for an operation of a valid registry, the exit code is success exactly when the
-- milestone was reached, vehicle-not-connected exactly when the link was lost, and the time-out
-- code exactly when the operation is still waiting, superseded or uncertain.
pub finish_operation_wait_codes :
    (action : Action) (outcome : CommandOutcome) (r : Registry) (a : ℕ)
    → IsValid r
    → a < r.next
    → outcome.accepted ≡ true
    → let code = response_code (finish_operation_wait action outcome (r.heap a)) in
      ((code ≡ success) ↔ ((r.heap a).state ≡ reached))
      × ((code ≡ vehicle_not_connected) ↔ ((r.heap a).state ≡ link_lost))
      × ((code ≡ nack_timeout) ↔ (
          ((r.heap a).state ≡ waiting)
          ⊎ ((r.heap a).state ≡ superseded)
          ⊎ ((r.heap a).state ≡ uncertain)))
unfolding response_code finish_operation_wait command_result
finish_operation_wait_codes action outcome r a v lt accepted =
    ground (arith, states_reached r a v lt)
