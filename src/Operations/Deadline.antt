-- ===== src/Operations/Deadline.antt =====
-- `record_timed_out`: a client's deadline leaves the operation waiting.
use mavctl.Prelude.{
  ℕ, ◌+◌, ◌≡◌, refl, ap, sym, ◌∙◌, ◌⊎◌, true, false, some, String, inl, inr, Bool-cases, arith,
}
use mathlib.Core.Path.{subst}
use mavctl.Models.Operation.{waiting, is_waiting}
use mavctl.Operations.Registry.{
  Operation, Registry, update, lookup, is_active, record_timed_out, note_deadline,
}
use mavctl.Operations.Table.{SameIds, entries-SameIds, ids-SameIds}
use mavctl.Operations.Invariant.{
  IsValid, Settled, live_cases, update-SameIds, update-Distinct, update-epoch,
}
use mavctl.Operations.Fencing.{open_fence, newest_lookup}

-- The operation with the reason that a deadline leaves.
abbrev pub noted : Operation → Operation
noted old = record old {
  terminal_reason = some "client wait deadline elapsed; observation continues";
}

-- The registry with that note on the operation at `n`.
abbrev pub with_note : Registry → ℕ → Registry
with_note r n = record r { heap = update r.heap n (noted (r.heap n)) }

pub note_waiting :
    (r : Registry) (a : ℕ)
    → (r.heap a).state ≡ waiting
    → note_deadline (some a) r ≡ some (with_note r a, true)
unfolding note_deadline is_waiting
note_waiting r a h = rw (h, note_deadline) refl

note-Settled :
    (r : Registry) (a : ℕ) → Settled (r.heap a).state → note_deadline (some a) r ≡ some (r, false)
unfolding note_deadline is_waiting
note-Settled r a h = ground arith

pub opened_note :
    (id : String) (epoch a : ℕ) (r : Registry)
    → is_active id epoch r ≡ true
    → lookup id r.operations ≡ some a
    → record_timed_out id epoch r ≡ note_deadline (some a) r
unfolding record_timed_out
opened_note id epoch a r opened found = rw (opened, found, record_timed_out) refl

pub timed_out_shut :
    (id : String) (epoch : ℕ) (r : Registry)
    → is_active id epoch r ≡ false
    → record_timed_out id epoch r ≡ some (r, false)
unfolding record_timed_out
timed_out_shut id epoch r shut = rw (shut, record_timed_out) refl

-- The note goes to the operation at `n`, which the caller named by its id and epoch.
abbrev pub NotesAt : String → ℕ → Registry → ℕ → Type 0
NotesAt id epoch r n =
    ((r.heap n).operation_id ≡ id)
    × ((r.heap n).epoch ≡ epoch)
    × (record_timed_out id epoch r ≡ some (with_note r n, true))

abbrev pub DeadlineOutcome : String → ℕ → (r : Registry) → IsValid r → Type 0
DeadlineOutcome id epoch r v =
    (record_timed_out id epoch r ≡ some (r, false))
    ⊎ ((v.live ≡ 1) × NotesAt id epoch r (v.first + v.done))

pub timed_out-Outcome :
    (id : String) (epoch : ℕ) (r : Registry) (v : IsValid r) → DeadlineOutcome id epoch r v
timed_out-Outcome id epoch r v = elim (Bool-cases (is_active id epoch r)) [
  | inr shut ↦ inl (timed_out_shut id epoch r shut)
  | inl opened ↦
      let (a, e, named, dated) = open_fence r id epoch r.next v refl opened in
      let found : lookup id r.operations ≡ some a =
        ap (λ k. lookup k r.operations) (sym named) ∙ newest_lookup r a v e in
      let step : record_timed_out id epoch r ≡ note_deadline (some a) r =
        opened_note id epoch a r opened found in
      elim (live_cases r v) [
        | inl rested ↦ inl (step ∙ note-Settled r a (v.settled a (omega arith)))
        | inr one ↦
            let here : v.first + v.done ≡ a = omega arith in
            inr (
              one,
              subst (NotesAt id epoch r) (sym here) (
                named,
                dated,
                step ∙ note_waiting r a (ap (λ n. (r.heap n).state) (sym here) ∙ v.running one),
              ),
            )
      ]
]

update_state :
    (heap : ℕ → Operation) (n : ℕ) (a : ℕ)
    → (update heap n (noted (heap n)) a).state ≡ (heap a).state
unfolding update
update_state heap n a = ground arith

-- A note keeps the registry valid.
pub noted-IsValid : (r : Registry) (v : IsValid r) (n : ℕ) → IsValid (with_note r n)
noted-IsValid r v n =
    let heap : ℕ → Operation = update r.heap n (noted (r.heap n)) in
    let same : SameIds r.heap heap r.next =
      update-SameIds r.heap n r.next (noted (r.heap n)) refl in
    record {
      first = v.first;
      done = v.done;
      live = v.live;
      one_live = v.one_live;
      bounded = v.bounded;
      full = v.full;
      allocated = v.allocated;
      epoch_count = v.epoch_count;
      owner = v.owner;
      table =
          v.table
          ∙ sym (entries-SameIds r.heap heap r.next v.first (v.done + v.live) same (omega arith));
      queue = v.queue ∙ sym (ids-SameIds r.heap heap r.next v.first v.done same (omega arith));
      epochs = λ a h. update-epoch r.heap n (noted (r.heap n)) refl a (v.epochs a h);
      distinct = update-Distinct r.heap n r.next (noted (r.heap n)) refl v.distinct;
      settled = λ a h. rw (update_state r.heap n a) (v.settled a h);
      running = λ one. update_state r.heap n (v.first + v.done) ∙ v.running one;
    }
