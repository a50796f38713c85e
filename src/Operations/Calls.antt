-- ===== src/Operations/Calls.antt =====
-- The calls of the registry as one step function, and that a valid registry serves every call.
use mathlib.Core.Option
use mavctl.Prelude.{ℕ, ◌+◌, ◌≡◌, refl, Option, none, some, [], String, Float, inl, inr, arith}
use mavctl.Models.Operation.{OperationKind, OperationState, reached, link_lost, uncertain}
use mavctl.Operations.Registry.{
  Operation, Registry, activate, fenced_settle, record_reached, record_link_lost, record_uncertain,
  record_timed_out,
}
use mavctl.Operations.Invariant.{IsValid, Settled, ended, ended-IsValid}
use mavctl.Operations.Activation.{Fresh, activate-IsValid}
use mavctl.Operations.Fencing.{fenced_settle-Outcome}
use mavctl.Operations.Deadline.{with_note, noted-IsValid, timed_out-Outcome}

-- `activate` has the kind, the three clock readings and the new id; the others have the id and
-- the epoch that the observer holds.
pub data Call : Type 0 where
  activates : OperationKind → Float → Float → Float → String → Call
  reaches loses_link times_out : String → ℕ → Call
  fails : String → String → ℕ → Call

-- The registry after a call; `none` is a `KeyError`.
unfoldable pub step : Call → Registry → Option Registry
step (activates kind effect_sent ack now id) r = some (activate kind effect_sent ack now id r).0
step (reaches id epoch) r = Option.map (λ p. p.0) (record_reached id epoch r)
step (loses_link id epoch) r = Option.map (λ p. p.0) (record_link_lost id epoch r)
step (times_out id epoch) r = Option.map (λ p. p.0) (record_timed_out id epoch r)
step (fails reason id epoch) r = Option.map (λ p. p.0) (record_uncertain reason id epoch r)

-- The ids of `uuid4` are new.
abbrev pub Allowed : Call → Registry → Type 0
Allowed (activates kind effect_sent ack now id) r = Fresh id r
Allowed _ r = Unit {0}

-- `OperationRegistry()`; the contents of unused addresses do not matter.
unfoldable pub init : Operation → Registry
init unused = record {
  heap = λ _. unused;
  next = 0;
  active = none;
  operations = [];
  last_epoch = 0;
  terminal_order = [];
}

pub init-IsValid : (unused : Operation) → IsValid (init unused)
unfolding init
init-IsValid unused = record {
  first = 0;
  done = 0;
  live = 0;
  one_live = omega arith;
  bounded = omega arith;
  full = inl refl;
  allocated = omega arith;
  epoch_count = refl;
  owner = refl;
  table = refl;
  queue = refl;
  epochs = λ a h. absurd (omega arith);
  distinct = λ a b ha hb h. absurd (omega arith);
  settled = λ a h. absurd (omega arith);
  running = λ h. absurd (omega arith);
}

Settled-call :
    (state : OperationState) (reason id : String) (epoch : ℕ) (r : Registry)
    → Settled state
    → IsValid r
    → (s : Registry) × (Option.map (λ p. p.0) (fenced_settle state reason id epoch r) ≡ some s)
      × IsValid s
Settled-call state reason id epoch r s v = elim (fenced_settle-Outcome state reason id epoch r v) [
  | inl e ↦ (r, rw e, v)
  | inr (one, (_, _, e)) ↦
      let n : ℕ = v.first + v.done in
      let operation : Operation = record (r.heap n) {
        state = state;
        terminal_reason = some reason;
      } in
      (
        ended r n operation,
        rw e,
        (ended-IsValid r v operation one (record { same_id = refl; same_epoch = refl }) s).0,
      )
]

noted_call :
    (id : String) (epoch : ℕ) (r : Registry)
    → IsValid r
    → (s : Registry) × (Option.map (λ p. p.0) (record_timed_out id epoch r) ≡ some s) × IsValid s
noted_call id epoch r v = elim (timed_out-Outcome id epoch r v) [
  | inl e ↦ (r, rw e, v)
  | inr (_, (_, _, e)) ↦
      (with_note r (v.first + v.done), rw e, noted-IsValid r v (v.first + v.done))
]

-- Every call on a valid registry returns, a `KeyError` never comes, and the registry is valid
-- again, if the id of an activation is new.
pub step-IsValid :
    (c : Call) (r : Registry)
    → IsValid r
    → Allowed c r
    → (s : Registry) × (step c r ≡ some s) × IsValid s
unfolding step record_reached record_link_lost record_uncertain
step-IsValid (activates kind effect_sent ack now id) r v fresh = (
  (activate kind effect_sent ack now id r).0,
  refl,
  activate-IsValid kind effect_sent ack now id r v fresh,
)
step-IsValid (reaches id epoch) r v _ =
    Settled-call reached "milestone reached" id epoch r (ground arith) v
step-IsValid (loses_link id epoch) r v _ =
    Settled-call link_lost "heartbeat lost during wait" id epoch r (ground arith) v
step-IsValid (fails reason id epoch) r v _ =
    Settled-call uncertain reason id epoch r (ground arith) v
step-IsValid (times_out id epoch) r v _ = noted_call id epoch r v
