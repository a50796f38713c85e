-- ===== src/Operations/Invariant.antt =====
-- What holds of a registry between two calls, and that each call keeps it.
use native.Mathlib.Nat.{add-zero}
use mavctl.Prelude.{
  ℕ, zero, suc, ◌+◌, ◌≤◌, ◌<◌, ◌≡◌, ◌≢◌, refl, ap, sym, ◌∙◌, ◌⊎◌, Option, none, some, arith,
}
use mavctl.Models.Operation.{OperationState, waiting, reached, link_lost, superseded, uncertain}
use mavctl.Operations.Registry.{
  Operation, Registry, update, mark_terminal, max_retained_terminal_operations,
}
use mavctl.Operations.Table.{
  ids, entries, Distinct, SameIds, ids-SameIds, entries-SameIds, ids-suc, evict-entries, first_kept,
  kept,
}

-- The states that an operation of the registry can end in.
abbrev pub Settled : OperationState → Type 0
Settled s = (s ≡ reached) ⊎ (s ≡ link_lost) ⊎ (s ≡ superseded) ⊎ (s ≡ uncertain)

-- The address of the newest operation.
abbrev pub newest : ℕ → Option ℕ
newest zero = none
newest (suc n) = some n

-- The registry keeps a run of consecutive operations: `done` settled ones from the address
-- `first` on and, if `live` is 1, the newest, which is waiting.
pub record IsValid (r : Registry) : Type 0 where
  pub first : ℕ
  pub done : ℕ
  pub live : ℕ
  pub one_live : live ≤ 1
  pub bounded : done ≤ max_retained_terminal_operations
  pub full : (first ≡ 0) ⊎ (done ≡ max_retained_terminal_operations)
  pub allocated : r.next ≡ first + (done + live)
  pub epoch_count : r.last_epoch ≡ r.next
  pub owner : r.active ≡ newest r.next
  pub table : r.operations ≡ entries r.heap first (done + live)
  pub queue : r.terminal_order ≡ ids r.heap first done
  pub epochs : (a : ℕ) → a < r.next → (r.heap a).epoch ≡ suc a
  pub distinct : Distinct r.heap r.next
  pub settled : (a : ℕ) → a < first + done → Settled (r.heap a).state
  pub running : live ≡ 1 → (r.heap (first + done)).state ≡ waiting

-- The newest operation is waiting, or every operation is settled.
pub live_cases : (r : Registry) (v : IsValid r) → (v.live ≡ 0) ⊎ (v.live ≡ 1)
live_cases r v = omega arith

-- Marking the newest operation, when it is in the dictionary and not yet in the queue.
mark_newest :
    (r : Registry) (first done : ℕ)
    → done ≤ max_retained_terminal_operations
    → r.next ≡ suc (first + done)
    → r.active ≡ some (first + done)
    → Distinct r.heap r.next
    → r.operations ≡ entries r.heap first (suc done)
    → r.terminal_order ≡ ids r.heap first done
    → mark_terminal (first + done) r ≡ record r {
      operations = entries r.heap (first_kept first (suc done)) (kept (suc done));
      terminal_order = ids r.heap (first_kept first (suc done)) (kept (suc done));
    }
unfolding mark_terminal
mark_newest r first done h e o d t q =
    rw (o, t, q, ids-suc r.heap first done, mark_terminal)
      (rw (evict-entries r.heap r.next first done d (omega arith) h) refl)

-- The registry after the newest operation ended as `operation`.
abbrev pub ended : Registry → ℕ → Operation → Registry
ended r n operation = mark_terminal n (record r { heap = update r.heap n operation })

-- A write that keeps the id and the epoch.
pub record Keeps (old new : Operation) : Type 0 where
  pub same_id : new.operation_id ≡ old.operation_id
  pub same_epoch : new.epoch ≡ old.epoch

pub update-SameIds :
    (heap : ℕ → Operation) (n m : ℕ) (operation : Operation)
    → operation.operation_id ≡ (heap n).operation_id
    → SameIds heap (update heap n operation) m
unfolding update
update-SameIds heap n m operation e a h = ground arith

pub update-Distinct :
    (heap : ℕ → Operation) (n m : ℕ) (operation : Operation)
    → operation.operation_id ≡ (heap n).operation_id
    → Distinct heap m
    → Distinct (update heap n operation) m
update-Distinct heap n m operation e d a b ha hb h =
    d a b ha hb (
      sym (update-SameIds heap n m operation e a ha) ∙ h ∙ update-SameIds heap n m operation e b hb)

ended_eq :
    (r : Registry) (v : IsValid r) (operation : Operation)
    → v.live ≡ 1
    → Keeps (r.heap (v.first + v.done)) operation
    → let heap = update r.heap (v.first + v.done) operation in
      ended r (v.first + v.done) operation ≡ record r {
        heap = heap;
        operations = entries heap (first_kept v.first (suc v.done)) (kept (suc v.done));
        terminal_order = ids heap (first_kept v.first (suc v.done)) (kept (suc v.done));
      }
ended_eq r v operation one k =
    let n = v.first + v.done in
    let heap = update r.heap n operation in
    let same = update-SameIds r.heap n r.next operation k.same_id in
    mark_newest (record r { heap = heap }) v.first v.done v.bounded (omega arith)
      (v.owner ∙ ap newest {y = suc n} (omega arith))
      (update-Distinct r.heap n r.next operation k.same_id v.distinct)
      (v.table
        ∙ ap (entries r.heap v.first) {y = suc v.done} (omega arith)
        ∙ sym (entries-SameIds r.heap heap r.next v.first (suc v.done) same (omega arith)))
      (v.queue ∙ sym (ids-SameIds r.heap heap r.next v.first v.done same (omega arith)))

pub update-epoch :
    (heap : ℕ → Operation) (n : ℕ) (operation : Operation)
    → operation.epoch ≡ (heap n).epoch
    → (a : ℕ) → (heap a).epoch ≡ suc a
    → (update heap n operation a).epoch ≡ suc a
unfolding update
update-epoch heap n operation e a h = ground arith

update-Settled :
    (heap : ℕ → Operation) (n : ℕ) (operation : Operation)
    → Settled operation.state
    → (a : ℕ) → (a ≢ n → Settled (heap a).state)
    → Settled (update heap n operation a).state
unfolding update
update-Settled heap n operation s a h = ground arith

kept_lt :
    (first done a : ℕ)
    → done ≤ max_retained_terminal_operations
    → a < first_kept first (suc done) + kept (suc done)
    → a ≢ first + done
    → a < first + done
kept_lt first done a b h ne = ground arith

-- When the waiting operation ends, nothing is waiting, and the registry is valid again.
pub ended-IsValid :
    (r : Registry) (v : IsValid r) (operation : Operation)
    → v.live ≡ 1
    → Keeps (r.heap (v.first + v.done)) operation
    → Settled operation.state
    → (w : IsValid (ended r (v.first + v.done) operation)) × (w.live ≡ 0)
ended-IsValid r v operation one k s = rw (ended_eq r v operation one k) (
  record {
    first = first_kept v.first (suc v.done);
    done = kept (suc v.done);
    live = 0;
    one_live = omega arith;
    bounded = ground arith;
    full = ground arith;
    allocated = ground arith;
    epoch_count = v.epoch_count;
    owner = v.owner;
    table = rw add-zero;
    queue = refl;
    epochs = λ a h. update-epoch r.heap (v.first + v.done) operation k.same_epoch a (v.epochs a h);
    distinct = update-Distinct r.heap (v.first + v.done) r.next operation k.same_id v.distinct;
    settled = λ a h.
        update-Settled r.heap (v.first + v.done) operation s a
          (λ ne. v.settled a (kept_lt v.first v.done a v.bounded h ne));
    running = λ h. absurd (omega arith);
  },
  refl,
)
