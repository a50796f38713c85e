-- ===== src/Operations/Writes.antt =====
-- What a write of an observer does while its operation is waiting: one call of the registry.
use mathlib.Core.Option
use mavctl.Prelude.{
  ℕ, suc, ◌+◌, ◌<◌, ◌≡◌, ◌≢◌, refl, ap, ◌∙◌, Bool, true, Option, some, String, inl, inr, arith,
}
use mathlib.Core.Path.{subst}
use mavctl.Models.Operation.{OperationState, waiting, reached, link_lost, uncertain}
use mavctl.Operations.Registry.{
  Registry, update, mark_terminal, fenced_settle, record_reached, record_link_lost,
  record_uncertain, record_timed_out,
}
use mavctl.Operations.Invariant.{IsValid, Settled, live_cases, ended, ended-IsValid}
use mavctl.Operations.Fencing.{newest_lookup, settle_waiting, opened_settle}
use mavctl.Operations.Deadline.{with_note, noted-IsValid}
use mavctl.Operations.Ownership.{newest_active, waiting_newest, timed_out_keeps_waiting}
use mavctl.Operations.Calls.{Call, reaches, loses_link, fails, times_out, Allowed, step}
use mavctl.Operations.Traces.{Run, here, next}

-- A write to the operation at `a`, which leaves it in `state`: the registry is valid again, it is
-- one that calls lead to, and no other operation changes.
pub record Wrote (r : Registry) (a : ℕ) (state : OperationState) (s : Registry) : Type 0 where
  pub valid : IsValid s
  pub run : Run r s
  pub now : (s.heap a).state ≡ state
  pub others : (b : ℕ) → b ≢ a → s.heap b ≡ r.heap b

-- The observer's operation is still waiting.
pub record Watches (r : Registry) (a : ℕ) : Type 0 where
  pub valid : IsValid r
  pub known : a < r.next
  pub waits : (r.heap a).state ≡ waiting

abbrev pub settled_as : OperationState → String → Registry → ℕ → Registry
settled_as state reason r a =
    ended r a (record (r.heap a) { state = state; terminal_reason = some reason })

pub settled_heap :
    (state : OperationState) (reason : String) (r : Registry) (a : ℕ)
    → (((settled_as state reason r a).heap a).state ≡ state)
      × ((b : ℕ) → b ≢ a → (settled_as state reason r a).heap b ≡ r.heap b)
unfolding mark_terminal update
settled_heap state reason r a = (ground arith, λ b h. ground arith)

pub Settled-IsValid :
    (state : OperationState) (reason : String) (r : Registry) (a : ℕ)
    → Settled state
    → Watches r a
    → IsValid (settled_as state reason r a)
Settled-IsValid state reason r a s h =
    let e : r.next ≡ suc a = waiting_newest r a h.valid h.known h.waits in
    let one : h.valid.live ≡ 1 = elim (live_cases r h.valid) [
      | inl rested ↦
          absurd (ground (arith, h.waits, h.valid.settled a (omega (arith, h.valid.allocated))))
      | inr one ↦ one
    ] in
    let here : h.valid.first + h.valid.done ≡ a = omega (arith, h.valid.allocated) in
    subst (λ n. IsValid (settled_as state reason r n)) here
      (ended-IsValid r h.valid
        (record (r.heap (h.valid.first + h.valid.done)) {
          state = state;
          terminal_reason = some reason;
        })
        one (record { same_id = refl; same_epoch = refl }) s).0

-- A terminal write of an observer whose operation is still waiting.
pub fenced_settle_lem :
    (state : OperationState) (reason : String) (r : Registry) (a : ℕ)
    → Watches r a
    → fenced_settle state reason (r.heap a).operation_id (r.heap a).epoch r
      ≡ some (settled_as state reason r a, true)
fenced_settle_lem state reason r a h =
    let e : r.next ≡ suc a = waiting_newest r a h.valid h.known h.waits in
    opened_settle state reason _ _ a r (newest_active r a h.valid e) (newest_lookup r a h.valid e)
    ∙ settle_waiting state reason r a h.waits

Settled-Wrote :
    (state : OperationState) (reason : String) (c : Call) (r : Registry) (a : ℕ)
    → Settled state
    → Watches r a
    → Allowed c r
    → step c r ≡ some (settled_as state reason r a)
    → Wrote r a state (settled_as state reason r a)
Settled-Wrote state reason c r a s h allowed e = record {
  valid = Settled-IsValid state reason r a s h;
  run = next here c allowed e;
  now = (settled_heap state reason r a).0;
  others = (settled_heap state reason r a).1;
}

-- A write succeeds, and does what it says.
abbrev pub Writes : Registry → ℕ → OperationState → Option (Registry × Bool) → Type 0
Writes r a state m = (s : Registry) × (m ≡ some (s, true)) × Wrote r a state s

pub reached-Writes :
    (r : Registry) (a : ℕ)
    → Watches r a
    → Writes r a reached (record_reached (r.heap a).operation_id (r.heap a).epoch r)
unfolding record_reached step
reached-Writes r a h =
    let e = fenced_settle_lem reached "milestone reached" r a h in
    (
      settled_as reached "milestone reached" r a,
      e,
      Settled-Wrote reached "milestone reached" (reaches (r.heap a).operation_id (r.heap a).epoch) r
          a (ground arith) h tt (ap (Option.map (λ p. p.0)) e),
    )

pub link_lost-Writes :
    (r : Registry) (a : ℕ)
    → Watches r a
    → Writes r a link_lost (record_link_lost (r.heap a).operation_id (r.heap a).epoch r)
unfolding record_link_lost step
link_lost-Writes r a h =
    let e = fenced_settle_lem link_lost "heartbeat lost during wait" r a h in
    (
      settled_as link_lost "heartbeat lost during wait" r a,
      e,
      Settled-Wrote link_lost "heartbeat lost during wait"
          (loses_link (r.heap a).operation_id (r.heap a).epoch) r a (ground arith) h tt
          (ap (Option.map (λ p. p.0)) e),
    )

pub uncertain-Writes :
    (reason : String) (r : Registry) (a : ℕ)
    → Watches r a
    → Writes r a uncertain (record_uncertain reason (r.heap a).operation_id (r.heap a).epoch r)
unfolding record_uncertain step
uncertain-Writes reason r a h =
    let e = fenced_settle_lem uncertain reason r a h in
    (
      settled_as uncertain reason r a,
      e,
      Settled-Wrote uncertain reason (fails reason (r.heap a).operation_id (r.heap a).epoch) r a
          (ground arith) h tt (ap (Option.map (λ p. p.0)) e),
    )

note_heap :
    (r : Registry) (a : ℕ)
    → (((with_note r a).heap a).state ≡ (r.heap a).state)
      × ((b : ℕ) → b ≢ a → (with_note r a).heap b ≡ r.heap b)
unfolding update
note_heap r a = (ground arith, λ b h. ground arith)

-- The deadline's note.
pub timed_out-Writes :
    (r : Registry) (a : ℕ)
    → Watches r a
    → Writes r a waiting (record_timed_out (r.heap a).operation_id (r.heap a).epoch r)
unfolding step
timed_out-Writes r a h =
    let e =
      timed_out_keeps_waiting r a h.valid (waiting_newest r a h.valid h.known h.waits) h.waits in
    (
      with_note r a,
      e,
      record {
        valid = noted-IsValid r h.valid a;
        run =
            next here (times_out (r.heap a).operation_id (r.heap a).epoch) tt
              (ap (Option.map (λ p. p.0)) e);
        now = (note_heap r a).0 ∙ h.waits;
        others = (note_heap r a).1;
      },
    )
