-- ===== src/Operations/Owner.antt =====
-- What the registry promises to its users, with no heap, no dictionary and no queue: at most one
-- command owns the vehicle, and only who holds its id and epoch can settle it.
use mavctl.Prelude.{
  ℕ, zero, suc, ◌≡◌, refl, ap, ◌∙◌, Bool, true, false, ◌&&◌, ◌==◌, Option, none, some, String,
  str_eq, if◌then◌else◌, arith,
}
use mavctl.Models.Operation.{OperationState, waiting, is_waiting}
use mavctl.Operations.Registry.{
  Operation, Registry, activate, record_reached, record_link_lost, record_uncertain,
  record_timed_out,
}
use mavctl.Operations.Invariant.{IsValid, Settled, newest}
use mavctl.Operations.Calls.{Call, activates, reaches, loses_link, times_out, fails}

-- Who owns the vehicle, if anyone, and how many commands were accepted.
pub record Owner : Type 0 where
  pub holder : Option (String × ℕ)
  pub issued : ℕ

abbrev pub is_holder : Option (String × ℕ) → String → ℕ → Bool
is_holder none id epoch = false
is_holder (some (i, e)) id epoch = str_eq i id && e == epoch

abbrev pub release : Bool → Owner → Owner
release true o = record o { holder = none }
release false o = o

-- Settling ends the ownership, for the holder alone.
abbrev pub settles : String → ℕ → Owner → Owner × Bool
settles id epoch o = (release (is_holder o.holder id epoch) o, is_holder o.holder id epoch)

-- The specification: the owner after a call, and the answer.
unfoldable pub specified : Call → Owner → Owner × Bool
specified (activates kind effect_sent ack now id) o =
    (record { holder = some (id, suc o.issued); issued = suc o.issued }, true)
specified (reaches id epoch) o = settles id epoch o
specified (loses_link id epoch) o = settles id epoch o
specified (fails reason id epoch) o = settles id epoch o
specified (times_out id epoch) o = (o, is_holder o.holder id epoch)

-- The code: the registry after a call, and the Boolean that it returns.
unfoldable pub answer : Call → Registry → Option (Registry × Bool)
unfolding activate
answer (activates kind effect_sent ack now id) r =
    some ((activate kind effect_sent ack now id r).0, true)
answer (reaches id epoch) r = record_reached id epoch r
answer (loses_link id epoch) r = record_link_lost id epoch r
answer (fails reason id epoch) r = record_uncertain reason id epoch r
answer (times_out id epoch) r = record_timed_out id epoch r

abbrev pub holder_of : Option ℕ → (ℕ → Operation) → Option (String × ℕ)
holder_of none heap = none
holder_of (some a) heap =
    if is_waiting (heap a).state then some ((heap a).operation_id, (heap a).epoch) else none

-- The owner that a registry stands for.
abbrev pub owner_of : Registry → Owner
owner_of r = record { holder = holder_of r.active r.heap; issued = r.last_epoch }

-- The call is answered as specified.
abbrev pub Implements : Call → Registry → Type 0
Implements c r =
    (s : Registry) × (b : Bool) × (answer c r ≡ some (s, b))
    × ((owner_of s, b) ≡ specified c (owner_of r))
    × IsValid s

pub Settled-not_waiting : (state : OperationState) → Settled state → is_waiting state ≡ false
unfolding is_waiting
Settled-not_waiting state s = ground arith

-- Nothing waits: no one owns the vehicle.
pub idle_holder : (r : Registry) (v : IsValid r) → v.live ≡ 0 → (owner_of r).holder ≡ none
idle_holder r v rested = go r.next refl
  where
    go : (n : ℕ) → r.next ≡ n → (owner_of r).holder ≡ none
    go zero e = ap (λ o. holder_of o r.heap) (v.owner ∙ ap newest e)
    go (suc a) e =
        ap (λ o. holder_of o r.heap) (v.owner ∙ ap newest e)
        ∙ ap (λ b. if b then some ((r.heap a).operation_id, (r.heap a).epoch) else none)
            (Settled-not_waiting _ (v.settled a (omega (arith, e, v.allocated))))

-- The newest waits: it owns the vehicle.
pub live_holder :
    (r : Registry) (a : ℕ)
    → r.active ≡ some a
    → (r.heap a).state ≡ waiting
    → (owner_of r).holder ≡ some ((r.heap a).operation_id, (r.heap a).epoch)
unfolding is_waiting
live_holder r a e w =
    ap (λ o. holder_of o r.heap) e
    ∙ ap (λ s. if is_waiting s then some ((r.heap a).operation_id, (r.heap a).epoch) else none) w
