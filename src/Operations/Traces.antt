-- ===== src/Operations/Traces.antt =====
-- What every history of a registry has: settled operations never change, one operation at most
-- is waiting, and the recent ones are kept.
use mathlib.Core.Option
use mathlib.Core.Path.{subst}
use mavctl.Prelude.{
  ℕ, ◌≤◌, ◌<◌, ◌≡◌, refl, ap, ◌∙◌, Bool, true, Option, none, some, String, Float, arith,
}
use mavctl.Models.Operation.{OperationKind, OperationState, is_terminal, is_waiting}
use mavctl.Operations.Registry.{
  Operation, Registry, activate, supersede, update, mark_terminal, lookup, fenced_settle, settle,
  note_deadline, record_reached, record_link_lost, record_uncertain, record_timed_out,
}
use mavctl.Operations.Invariant.{IsValid}
use mavctl.Operations.Calls.{
  Call, activates, reaches, loses_link, times_out, fails, step, Allowed, step-IsValid,
}

-- The registries that calls lead to.
pub data Run (r : Registry) : Registry → Type 0 where
  here : Run r r
  next : {s t : Registry} → Run r s → (c : Call) → Allowed c s → step c s ≡ some t → Run r t

settle_final :
    (state : OperationState) (reason : String) (o : Option ℕ) (r s : Registry) (b : Bool) (a : ℕ)
    → settle state reason o r ≡ some (s, b)
    → is_terminal (r.heap a).state ≡ true
    → (s.heap a ≡ r.heap a) × (s.next ≡ r.next)
unfolding settle update mark_terminal is_terminal is_waiting
settle_final state reason o r s b a e h = ground arith

note_final :
    (o : Option ℕ) (r s : Registry) (b : Bool) (a : ℕ)
    → note_deadline o r ≡ some (s, b)
    → is_terminal (r.heap a).state ≡ true
    → (s.heap a ≡ r.heap a) × (s.next ≡ r.next)
unfolding note_deadline update is_terminal is_waiting
note_final o r s b a e h = ground arith

supersede_final :
    (o : Option ℕ) (id : String) (r : Registry) (a : ℕ)
    → is_terminal (r.heap a).state ≡ true
    → ((supersede o id r).heap a ≡ r.heap a) × ((supersede o id r).next ≡ r.next)
unfolding supersede update mark_terminal
supersede_final o id r a h = ground arith

-- Both the operation and the supply of addresses.
abbrev Stays : ℕ → Registry → Registry → Type 0
Stays a r s = (s.heap a ≡ r.heap a) × (r.next ≤ s.next)

write_final :
    (m : Option (Registry × Bool)) (r s : Registry) (a : ℕ)
    → ((t : Registry) (b : Bool) → m ≡ some (t, b) → (t.heap a ≡ r.heap a) × (t.next ≡ r.next))
    → Option.map (λ p. p.0) m ≡ some s
    → Stays a r s
write_final none r s a keep e = cc
write_final (some (t, b)) r s a keep e =
    let same : t ≡ s = ground arith in
    subst (Stays a r) same ((keep t b refl).0, omega (arith, (keep t b refl).1))

fenced_final :
    (state : OperationState) (reason id : String) (epoch : ℕ) (r : Registry) (a : ℕ)
    → is_terminal (r.heap a).state ≡ true
    → (t : Registry) (b : Bool) → fenced_settle state reason id epoch r ≡ some (t, b)
    → (t.heap a ≡ r.heap a) × (t.next ≡ r.next)
unfolding fenced_settle
fenced_final state reason id epoch r a h t b e =
    ground (arith, settle_final state reason (lookup id r.operations) r t b a)

deadline_final :
    (id : String) (epoch : ℕ) (r : Registry) (a : ℕ)
    → is_terminal (r.heap a).state ≡ true
    → (t : Registry) (b : Bool) → record_timed_out id epoch r ≡ some (t, b)
    → (t.heap a ≡ r.heap a) × (t.next ≡ r.next)
unfolding record_timed_out
deadline_final id epoch r a h t b e = ground (arith, note_final (lookup id r.operations) r t b a)

activate_final :
    (kind : OperationKind) (effect_sent ack now : Float) (id : String) (r : Registry) (a : ℕ)
    → a < r.next
    → is_terminal (r.heap a).state ≡ true
    → Stays a r (activate kind effect_sent ack now id r).0
unfolding activate update
activate_final kind effect_sent ack now id r a lt h =
    ground (arith, supersede_final r.active id r a)

step_final :
    (c : Call) (r s : Registry) (a : ℕ)
    → a < r.next
    → is_terminal (r.heap a).state ≡ true
    → step c r ≡ some s
    → Stays a r s
unfolding step record_reached record_link_lost record_uncertain
step_final (activates kind effect_sent ack now id) r s a lt h e =
    let same : (activate kind effect_sent ack now id r).0 ≡ s = ground arith in
    subst (Stays a r) same (activate_final kind effect_sent ack now id r a lt h)
step_final (reaches id epoch) r s a lt h e = write_final _ r s a (fenced_final _ _ id epoch r a h) e
step_final (loses_link id epoch) r s a lt h e =
    write_final _ r s a (fenced_final _ _ id epoch r a h) e
step_final (fails reason id epoch) r s a lt h e =
    write_final _ r s a (fenced_final _ _ id epoch r a h) e
step_final (times_out id epoch) r s a lt h e = write_final _ r s a (deadline_final id epoch r a h) e

Run-Stays :
    {r s : Registry} (a : ℕ)
    → a < r.next
    → is_terminal (r.heap a).state ≡ true
    → Run r s
    → Stays a r s
Run-Stays a lt h here = (refl, omega arith)
Run-Stays {r} {s} a lt h (next {s = m} run c ok e) =
    let before : Stays a r m = Run-Stays a lt h run in
    let after : Stays a m s =
      step_final c m s a (omega (arith, before.1))
        (ap (λ (o : Operation). is_terminal o.state) before.0 ∙ h) e in
    (after.0 ∙ before.0, omega (arith, before.1, after.1))

-- Terminal states are final: no history of calls changes an operation that has one, in any field.
pub Run-terminal_final :
    {r s : Registry} (a : ℕ)
    → a < r.next
    → is_terminal (r.heap a).state ≡ true
    → Run r s
    → s.heap a ≡ r.heap a
Run-terminal_final a lt h run = (Run-Stays a lt h run).0

-- A valid registry stays valid along every history.
pub Run-IsValid : {r s : Registry} → IsValid r → Run r s → IsValid s
Run-IsValid v here = v
Run-IsValid v (next {s = m} {t} run c allowed e) =
    let (t', e', w) = step-IsValid c m (Run-IsValid v run) allowed in
    let same : t' ≡ t = ground arith in subst IsValid same w
