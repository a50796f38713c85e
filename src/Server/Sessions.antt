-- ===== src/Server/Sessions.antt =====
-- The daemon at work: requests are served one at a time under the lock, observers poll between
-- them, and the vehicle moves on its own. A handler touches the registry at one instant, as its last
-- act under the lock, so what observers do while a verb is in the executor comes before it.
use mathlib.Core.Path.{subst}
use mavctl.Prelude.{
  ℕ, ◌<◌, ◌≡◌, refl, sym, ap, inl, inr, true, Option, none, some, Bool-cases, arith,
}
use mavctl.Models.State.{VehicleState}
use mavctl.Models.Operation.{OperationState, waiting, is_waiting}
use mavctl.Operations.Registry.{Registry}
use mavctl.Operations.Invariant.{IsValid}
use mavctl.Operations.Activation.{Fresh, activate-IsValid}
use mavctl.Operations.Calls.{activates, step}
use mavctl.Operations.Traces.{Run, here, next}
use mavctl.Server.Params.{RpcRequest}
use mavctl.Server.World.{
  DaemonServer, World, Outside, Poll, Goal, Handled, answered, escaped, started,
}
use mavctl.Server.Dispatch.{dispatch}
use mavctl.Server.Observe.{Round, behind, poll_operation, end_observation}
use mavctl.Server.Observed.{
  Records, poll_operation-Records, end_observation-Records, Continues, Returns, Evidence,
  LastEvidence,
}
use mavctl.Server.Accepted.{Tracks}
use mavctl.Server.Dispatched.{dispatch-Served}

-- One event: a line is served, with a new id for the operation that it may start; the observer of
-- some operation polls, or stops at its deadline; the vehicle changes.
pub data Turn {V : Type 0} (self : DaemonServer V) (w : World V) : World V → Type 0 where
  serves :
      (x : Outside) (request : Option RpcRequest)
      → Fresh x.new_id w.operations
      → Turn self w (dispatch self x request w).1
  polls :
      (goal : Goal) (poll : Poll) (a : ℕ) (s : Registry)
      → a < w.operations.next
      → behind (poll_operation goal poll a w.operations) ≡ some s
      → Turn self w (record w { operations = s })
  expires :
      (goal : Goal) (poll : Poll) (relink : Option VehicleState) (a : ℕ) (s : Registry)
      → a < w.operations.next
      → behind (end_observation goal poll relink a w.operations) ≡ some s
      → Turn self w (record w { operations = s })
  moves : (v : V) → Turn self w (record w { vehicle = v })

pub data Session {V : Type 0} (self : DaemonServer V) (w : World V) : World V → Type 0 where
  opened : Session self w w
  continued : {s t : World V} → Session self w s → Turn self s t → Session self w t

-- The registry is valid, and calls of the registry lead to it.
abbrev pub Follows : Registry → Registry → Type 0
Follows r s = IsValid s × Run r s

Run-trans : {r s t : Registry} → Run r s → Run s t → Run r t
Run-trans first here = first
Run-trans first (next rest c allowed e) = next (Run-trans first rest) c allowed e

round-Follows :
    (evidence : OperationState → Type 0) (ends : OperationState → Round → Type 0) (r : Registry)
    (a : ℕ) (round : Round) (s : Registry)
    → Records evidence ends r a round
    → behind round ≡ some s
    → Follows r s
round-Follows evidence ends r a round s (t, state, e, wrote, _, _) f =
    let same : t ≡ s = ground arith in subst (Follows r) same (wrote.valid, wrote.run)

is_waiting_eq : (state : OperationState) → is_waiting state ≡ true → state ≡ waiting
unfolding is_waiting
is_waiting_eq state h = ground arith

polls-Follows :
    (goal : Goal) (poll : Poll) (a : ℕ) (r s : Registry)
    → IsValid r
    → a < r.next
    → behind (poll_operation goal poll a r) ≡ some s
    → Follows r s
unfolding poll_operation behind
polls-Follows goal poll a r s v lt e = elim (Bool-cases (is_waiting (r.heap a).state)) [
  | inl watched ↦
      round-Follows (Evidence goal poll) Continues r a (poll_operation goal poll a r) s
        (poll_operation-Records goal poll r a
          (record { valid = v; known = lt; waits = is_waiting_eq _ watched }))
        e
  | inr rested ↦ let same : r ≡ s = ground arith in subst (Follows r) same (v, here)
]

expires-Follows :
    (goal : Goal) (poll : Poll) (relink : Option VehicleState) (a : ℕ) (r s : Registry)
    → IsValid r
    → a < r.next
    → behind (end_observation goal poll relink a r) ≡ some s
    → Follows r s
unfolding end_observation behind
expires-Follows goal poll relink a r s v lt e = elim (Bool-cases (is_waiting (r.heap a).state)) [
  | inl watched ↦
      round-Follows (LastEvidence goal poll relink) Returns r a
        (end_observation goal poll relink a r) s
        (end_observation-Records goal poll relink r a
          (record { valid = v; known = lt; waits = is_waiting_eq _ watched }))
        e
  | inr rested ↦ let same : r ≡ s = ground arith in subst (Follows r) same (v, here)
]

module _ {V : Type 0} (self : DaemonServer V) where
  Tracks-Follows :
      (x : Outside) (q : RpcRequest) (w : World V) (result : Handled × World V)
      → IsValid w.operations
      → Fresh x.new_id w.operations
      → Tracks self x q w result
      → Follows w.operations result.1.operations
  unfolding step
  Tracks-Follows x q w (answered response, s) v fresh same =
      subst (Follows w.operations) (sym same) (v, here)
  Tracks-Follows x q w (escaped, s) v fresh same = subst (Follows w.operations) (sym same) (v, here)
  Tracks-Follows x q w (started t, s) v fresh a =
      subst (Follows w.operations) (ap (λ (p : Registry × ℕ). p.0) a.registered) (
        activate-IsValid a.kind x.effect_sent x.ack x.now x.new_id w.operations v fresh,
        next here (activates a.kind x.effect_sent x.ack x.now x.new_id) fresh refl,
      )

  Turn-Follows :
      (w s : World V) → IsValid w.operations → Turn self w s → Follows w.operations s.operations
  unfolding dispatch
  Turn-Follows w s v (serves x none fresh) = (v, here)
  Turn-Follows w s v (serves x (some q) fresh) =
      Tracks-Follows x q w (dispatch self x (some q) w) v fresh (dispatch-Served self x w q).1
  Turn-Follows w s v (polls goal poll a r lt e) = polls-Follows goal poll a w.operations r v lt e
  Turn-Follows w s v (expires goal poll relink a r lt e) =
      expires-Follows goal poll relink a w.operations r v lt e
  Turn-Follows w s v (moves vehicle) = (v, here)

  -- Whatever requests arrive, in whatever order observers poll and deadlines pass, the daemon uses
  -- its registry as it is meant to be used: the registry stays valid, and the whole session is a
  -- history of registry calls. Ids of new operations are new.
  pub Session-Follows :
      {w s : World V} → IsValid w.operations → Session self w s → Follows w.operations s.operations
  Session-Follows v opened = (v, here)
  Session-Follows {w} {s} v (continued {s = m} session event) =
      let (valid, run) = Session-Follows v session in
      let (valid_after, more) = Turn-Follows m s valid event in (valid_after, Run-trans run more)
