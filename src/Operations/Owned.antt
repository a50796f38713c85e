-- ===== src/Operations/Owned.antt =====
-- The registry implements its specification.
use mathlib.Core.Path.{subst}
use text.Mathlib.TextEquality.{eq_iff}
use mavctl.Prelude.{
  ℕ, suc, ◌+◌, ◌≡◌, refl, sym, ap, ◌∙◌, Bool, true, false, Option, none, some, String, Float,
  if◌then◌else◌, inl, inr, Bool-cases, arith,
}
use mavctl.Models.Operation.{
  OperationKind, OperationState, waiting, reached, link_lost, uncertain, is_waiting,
}
use mavctl.Operations.Registry.{
  Operation, Registry, activate, owns, is_active, update, mark_terminal, fenced_settle,
  record_reached, record_link_lost, record_uncertain,
}
use mavctl.Operations.Invariant.{IsValid, Settled, live_cases, newest}
use mavctl.Operations.Activation.{activate-IsValid}
use mavctl.Operations.Fencing.{open_fence, fenced_settle-Outcome, fenced_shut}
use mavctl.Operations.Deadline.{timed_out-Outcome, timed_out_shut, with_note, noted-IsValid}
use mavctl.Operations.Ownership.{timed_out_keeps_waiting}
use mavctl.Operations.Calls.{Call, activates, reaches, loses_link, times_out, fails, Allowed}
use mavctl.Operations.Writes.{Watches, settled_as, settled_heap, Settled-IsValid, fenced_settle_lem}
use mavctl.Operations.Owner.{
  owner_of, holder_of, is_holder, settles, specified, answer, Implements, Settled-not_waiting,
  idle_holder, live_holder,
}

-- A closed fence is no holder's.
shut_holder :
    (o : Option ℕ) (heap : ℕ → Operation) (id : String) (epoch : ℕ)
    → owns o heap id epoch ≡ false
    → is_holder (holder_of o heap) id epoch ≡ false
unfolding owns is_waiting
shut_holder none heap id epoch h = refl
shut_holder (some a) heap id epoch h = ground arith

holder_self : (id : String) (epoch : ℕ) → is_holder (some (id, epoch)) id epoch ≡ true
holder_self id epoch = ground (arith, eq_iff id id)

-- The holder of a settled registry.
released :
    (state : OperationState) (reason : String) (r : Registry) (a : ℕ)
    → Settled state
    → r.active ≡ some a
    → owner_of (settled_as state reason r a) ≡ record { holder = none; issued = r.last_epoch }
unfolding mark_terminal
released state reason r a s e =
    let heap : ℕ → Operation = (settled_as state reason r a).heap in
    let done : is_waiting (heap a).state ≡ false =
      Settled-not_waiting _ (subst Settled (sym (settled_heap state reason r a).0) s) in
    let gone : holder_of (some a) heap ≡ none =
      ap (λ b. if b then some ((heap a).operation_id, (heap a).epoch) else none) done in
    ap (λ h. record { holder = h; issued = r.last_epoch }) (ap (λ o. holder_of o heap) e ∙ gone)

-- What a terminal write does to the owner.
abbrev Settles : OperationState → String → String → ℕ → Registry → Type 0
Settles state reason id epoch r =
    (s : Registry) × (b : Bool) × (fenced_settle state reason id epoch r ≡ some (s, b))
    × ((owner_of s, b) ≡ settles id epoch (owner_of r))
    × IsValid s

-- A caller that does not hold the vehicle settles nothing.
refused-Settles :
    (state : OperationState) (reason id : String) (epoch : ℕ) (r : Registry)
    → IsValid r
    → fenced_settle state reason id epoch r ≡ some (r, false)
    → is_holder (owner_of r).holder id epoch ≡ false
    → Settles state reason id epoch r
refused-Settles state reason id epoch r v e h = (r, false, e, rw h, v)

fenced-Settles :
    (state : OperationState) (reason id : String) (epoch : ℕ) (r : Registry)
    → Settled state
    → IsValid r
    → Settles state reason id epoch r
unfolding is_active
fenced-Settles state reason id epoch r s v = elim (Bool-cases (is_active id epoch r)) [
  | inr shut ↦
      refused-Settles state reason id epoch r v (fenced_shut state reason id epoch r shut)
        (shut_holder r.active r.heap id epoch shut)
  | inl opened ↦ elim (live_cases r v) [
    | inl rested ↦
        refused-Settles state reason id epoch r v
          (elim (fenced_settle-Outcome state reason id epoch r v) [
            | inl e ↦ e
            | inr (one, _) ↦ absurd (omega arith)
          ])
          (ap (λ h. is_holder h id epoch) (idle_holder r v rested))
    | inr one ↦
        let (a, e, named, dated) = open_fence r id epoch r.next v refl opened in
        let here : v.first + v.done ≡ a = omega (arith, v.allocated) in
        let w : Watches r a = record {
          valid = v;
          known = omega arith;
          waits = ap (λ n. (r.heap n).state) (sym here) ∙ v.running one;
        } in
        let owned : r.active ≡ some a = v.owner ∙ ap newest e in
        let mine : is_holder (owner_of r).holder id epoch ≡ true =
          ap (λ h. is_holder h id epoch) (live_holder r a owned w.waits)
          ∙ cc (holder_self id epoch, named, dated) in
        (
          settled_as state reason r a,
          true,
          cc (fenced_settle_lem state reason r a w, named, dated),
          rw mine (ap (λ o. (o, true)) (released state reason r a s owned)),
          Settled-IsValid state reason r a s w,
        )
  ]
]

noted_owner : (r : Registry) (a : ℕ) → owner_of (with_note r a) ≡ owner_of r
unfolding update
noted_owner r a = ap (λ h. record { holder = h; issued = r.last_epoch }) (go r.active)
  where
    go :
        (o : Option ℕ)
        → holder_of o (
            update r.heap a (record (r.heap a) {
              terminal_reason = some "client wait deadline elapsed; observation continues";
            }))
          ≡ holder_of o r.heap
    go none = refl
    go (some b) = ground arith

-- A time-out answers who the holder is, and changes no owner.
deadline-Implements :
    (id : String) (epoch : ℕ) (r : Registry) → IsValid r → Implements (times_out id epoch) r
unfolding answer specified is_active
deadline-Implements id epoch r v = elim (Bool-cases (is_active id epoch r)) [
  | inr shut ↦
      let free : is_holder (owner_of r).holder id epoch ≡ false =
        shut_holder r.active r.heap id epoch shut in
      (r, false, timed_out_shut id epoch r shut, rw free, v)
  | inl opened ↦ elim (live_cases r v) [
    | inl rested ↦
        let free : is_holder (owner_of r).holder id epoch ≡ false =
          ap (λ h. is_holder h id epoch) (idle_holder r v rested) in
        elim (timed_out-Outcome id epoch r v) [
          | inl e ↦ (r, false, e, rw free, v)
          | inr (one, _) ↦ absurd (omega arith)
        ]
    | inr one ↦
        let (a, e, named, dated) = open_fence r id epoch r.next v refl opened in
        let here : v.first + v.done ≡ a = omega (arith, v.allocated) in
        let waits : (r.heap a).state ≡ waiting =
          ap (λ n. (r.heap n).state) (sym here) ∙ v.running one in
        let mine : is_holder (owner_of r).holder id epoch ≡ true =
          ap (λ h. is_holder h id epoch) (live_holder r a (v.owner ∙ ap newest e) waits)
          ∙ cc (holder_self id epoch, named, dated) in
        (
          with_note r a,
          true,
          cc (timed_out_keeps_waiting r a v e waits, named, dated),
          rw mine (ap (λ o. (o, true)) (noted_owner r a)),
          noted-IsValid r v a,
        )
  ]
]

activated_owner :
    (kind : OperationKind) (effect_sent ack now : Float) (id : String) (r : Registry)
    → owner_of (activate kind effect_sent ack now id r).0
      ≡ record { holder = some (id, suc r.last_epoch); issued = suc r.last_epoch }
unfolding activate update is_waiting
activated_owner kind effect_sent ack now id r = ground arith

-- On a valid registry each call gives the answer of the specification and leaves the owner that it
-- names, if the id of an activation is new: an activation hands the vehicle over under the next
-- epoch, a terminal write succeeds for the holder of the vehicle alone and releases it, and a
-- time-out changes no owner. The registry is valid again.
pub call-Implements : (c : Call) (r : Registry) → IsValid r → Allowed c r → Implements c r
unfolding answer specified record_reached record_link_lost record_uncertain
call-Implements (activates kind effect_sent ack now id) r v fresh = (
  (activate kind effect_sent ack now id r).0,
  true,
  refl,
  ap (λ o. (o, true)) (activated_owner kind effect_sent ack now id r),
  activate-IsValid kind effect_sent ack now id r v fresh,
)
call-Implements (reaches id epoch) r v _ = fenced-Settles reached _ id epoch r (ground arith) v
call-Implements (loses_link id epoch) r v _ = fenced-Settles link_lost _ id epoch r (ground arith) v
call-Implements (fails reason id epoch) r v _ =
    fenced-Settles uncertain reason id epoch r (ground arith) v
call-Implements (times_out id epoch) r v _ = deadline-Implements id epoch r v
