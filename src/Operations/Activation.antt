-- ===== src/Operations/Activation.antt =====
-- `activate` keeps the registry valid: the previous owner is superseded and the new one waits.
use mavctl.Prelude.{
  ℕ, zero, suc, ◌+◌, ◌<◌, ◌≡◌, ◌≢◌, refl, ap, sym, ◌∙◌, Option, none, some, String, Float, inl, inr,
  arith,
}
use mavctl.Models.Operation.{OperationKind, waiting, is_terminal, superseded}
use mavctl.Operations.Registry.{Operation, Registry, update, supersede, activate, insert}
use mavctl.Operations.Table.{
  Distinct, SameIds, entries, entries-SameIds, ids-SameIds, insert-entries, entries-suc,
}
use mavctl.Operations.Invariant.{live_cases, IsValid, Settled, newest, ended, ended-IsValid}

-- The text of a new id occurs in no earlier operation.
abbrev pub Fresh : String → Registry → Type 0
Fresh id r = (a : ℕ) → a < r.next → (r.heap a).operation_id ≢ id

-- How the previous owner is left.
abbrev pub superseded_by : String → Operation → Operation
superseded_by id old = record old {
  state = superseded;
  superseded_by_operation_id = some id;
  terminal_reason = some "superseded by a newer accepted command";
}

supersede-none : (r : Registry) (id : String) → supersede none id r ≡ r
unfolding supersede
supersede-none r id = refl

pub supersede_waiting :
    (r : Registry) (n : ℕ) (id : String)
    → (r.heap n).state ≡ waiting
    → supersede (some n) id r ≡ ended r n (superseded_by id (r.heap n))
unfolding supersede is_terminal
supersede_waiting r n id h = rw (h, supersede) refl

pub supersede-Settled :
    (r : Registry) (n : ℕ) (id : String) → Settled (r.heap n).state → supersede (some n) id r ≡ r
unfolding supersede is_terminal
supersede-Settled r n id h = ground arith

abbrev last_of : (r : Registry) → IsValid r → ℕ
last_of r v = v.first + v.done

pub owner_live : (r : Registry) (v : IsValid r) → v.live ≡ 1 → r.active ≡ some (v.first + v.done)
owner_live r v one = v.owner ∙ ap newest {y = suc (v.first + v.done)} (omega arith)

-- The registry once the previous owner has made way: valid, with nothing waiting.
supersede-IsValid :
    (r : Registry) (v : IsValid r) (id : String) (n : ℕ)
    → r.next ≡ n
    → (w : IsValid (supersede r.active id r)) × (w.live ≡ 0)
unfolding is_terminal
supersede-IsValid r v id zero e =
    rw (ap (λ o. supersede o id r) (v.owner ∙ ap newest e) ∙ supersede-none r id) (v, omega arith)
supersede-IsValid r v id (suc n) e = elim (live_cases r v) [
  | inl rested ↦
      rw
        (ap (λ o. supersede o id r) (v.owner ∙ ap newest e)
          ∙ supersede-Settled r n id (v.settled n (omega arith)))
        (v, rested)
  | inr one ↦
      rw
        (ap (λ o. supersede o id r) (owner_live r v one)
          ∙ supersede_waiting r (v.first + v.done) id (v.running one))
        (ended-IsValid r v (superseded_by id (r.heap (v.first + v.done))) one
          (record { same_id = refl; same_epoch = refl }) (ground arith))
]

-- The counters and the ids of earlier operations stay.
pub record Same (r s : Registry) : Type 0 where
  pub next : s.next ≡ r.next
  pub last_epoch : s.last_epoch ≡ r.last_epoch
  pub ids : (a : ℕ) → (s.heap a).operation_id ≡ (r.heap a).operation_id

pub supersede-Same : (r : Registry) (o : Option ℕ) (id : String) → Same r (supersede o id r)
unfolding supersede update
supersede-Same r none id = record { next = refl; last_epoch = refl; ids = λ a. refl }
supersede-Same r (some n) id = record {
  next = ground arith;
  last_epoch = ground arith;
  ids = λ a. ground arith;
}

-- A registry with one more operation.
abbrev push : Registry → Operation → Registry
push s operation = record s {
  heap = update s.heap s.next operation;
  next = suc s.next;
  active = some s.next;
  operations = insert operation.operation_id s.next s.operations;
  last_epoch = operation.epoch;
}

push_table :
    (heap : ℕ → Operation) (n first done : ℕ) (operation : Operation)
    → first + done ≡ n
    → ((a : ℕ) → a < n → (heap a).operation_id ≢ operation.operation_id)
    → insert operation.operation_id n (entries heap first done)
      ≡ entries (update heap n operation) first (suc done)
unfolding update
push_table heap n first done operation e fresh =
    let heap' : ℕ → Operation = update heap n operation in
    let same : SameIds heap heap' n = λ a h. ground arith in
    let self : heap' n ≡ operation = ground arith in
    let old : entries heap' first done ≡ entries heap first done =
      entries-SameIds heap heap' n first done same (omega arith) in
    insert-entries heap n first done operation.operation_id (omega arith) fresh
    ∙ cc (old, e, self, entries-suc heap' first done)

push_Distinct :
    (heap : ℕ → Operation) (n : ℕ) (operation : Operation)
    → Distinct heap n
    → ((a : ℕ) → a < n → (heap a).operation_id ≢ operation.operation_id)
    → Distinct (update heap n operation) (suc n)
unfolding update
push_Distinct heap n operation d fresh a b ha hb h = ground (arith, d a b, fresh a, fresh b)

push-IsValid :
    (s : Registry) (v : IsValid s) (operation : Operation)
    → v.live ≡ 0
    → Fresh operation.operation_id s
    → operation.epoch ≡ suc s.next
    → operation.state ≡ waiting
    → IsValid (push s operation)
unfolding update
push-IsValid s v operation rested fresh e w =
    let n : ℕ = s.next in
    let heap : ℕ → Operation = update s.heap n operation in
    let same : SameIds s.heap heap n = λ a h. ground arith in
    record {
      first = v.first;
      done = v.done;
      live = 1;
      one_live = omega arith;
      bounded = v.bounded;
      full = v.full;
      allocated = omega arith;
      epoch_count = e;
      owner = refl;
      table =
          ap (insert operation.operation_id n) v.table
          ∙ ap (λ k. insert operation.operation_id n (entries s.heap v.first k)) {y = v.done}
              (omega arith)
          ∙ push_table s.heap n v.first v.done operation (omega arith) fresh
          ∙ ap (entries heap v.first) {x = suc v.done} {y = v.done + 1} (omega arith);
      queue = v.queue ∙ sym (ids-SameIds s.heap heap n v.first v.done same (omega arith));
      epochs = λ a h. ground (arith, v.epochs a);
      distinct = push_Distinct s.heap n operation v.distinct fresh;
      settled = λ a h. ground (arith, v.settled a);
      running = λ _. ground arith;
    }

-- What `activate` makes: a waiting operation of the next epoch.
abbrev pub fresh_operation : OperationKind → Float → Float → Float → String → ℕ → Operation
fresh_operation kind effect_sent ack now id epoch = record {
  operation_id = id;
  epoch = epoch;
  kind = kind;
  created_monotonic = now;
  effect_sent_monotonic = some effect_sent;
  ack_monotonic = some ack;
  state = waiting;
  superseded_by_operation_id = none;
  terminal_reason = none;
}

-- A new activation with a fresh id keeps the registry valid.
pub activate-IsValid :
    (kind : OperationKind) (effect_sent ack now : Float) (id : String) (r : Registry)
    → IsValid r
    → Fresh id r
    → IsValid (activate kind effect_sent ack now id r).0
unfolding activate
activate-IsValid kind effect_sent ack now id r v fresh =
    let s : Registry = supersede r.active id r in
    let kept : Same r s = supersede-Same r r.active id in
    let rested : (w : IsValid s) × (w.live ≡ 0) = supersede-IsValid r v id r.next refl in
    push-IsValid s rested.0 (fresh_operation kind effect_sent ack now id (r.last_epoch + 1))
      rested.1 (λ a h e. fresh a (omega (arith, kept.next)) (sym (kept.ids a) ∙ e))
      (omega (arith, kept.next, v.epoch_count)) refl
