-- ===== src/Operations/Ownership.antt =====
-- Who may write, what a new activation does to the old owner, and which operations are kept.
use native.Mathlib.Decide.{ℕ_discrete}
use text.Mathlib.TextEquality.{eq_iff}
use mavctl.Prelude.{
  ℕ, suc, ◌+◌, ◌≤◌, ◌<◌, ◌≡◌, refl, ap, ◌∙◌, ◌⊎◌, true, false, some, String, Float, inl, inr, arith,
  length, Bool-cases,
}
use mavctl.Models.Operation.{OperationKind, waiting}
use mavctl.Operations.Registry.{
  Operation, Registry, activate, supersede, update, mark_terminal, owns, is_active, lookup,
  record_reached, record_link_lost, record_uncertain, record_timed_out, release_active, get,
}
use mavctl.Operations.Table.{length-entries, lookup-entries}
use mavctl.Operations.Invariant.{IsValid, Settled, live_cases, newest, ended}
use mavctl.Operations.Activation.{superseded_by, fresh_operation, supersede-Same, supersede_waiting}
use mavctl.Operations.Fencing.{open_fence, fenced_shut, newest_lookup}
use mavctl.Operations.Deadline.{timed_out_shut, with_note, note_waiting, opened_note}

-- In a valid registry only the newest operation can be waiting.
pub waiting_newest :
    (r : Registry) (a : ℕ) → IsValid r → a < r.next → (r.heap a).state ≡ waiting → r.next ≡ suc a
waiting_newest r a v lt w = ground (arith, v.settled a, live_cases r v)

-- Every operation of a valid registry is waiting, reached, link-lost, superseded or uncertain: the
-- registry itself never shows the states pending, command_sent, accepted, timed_out and failed.
pub states_reached :
    (r : Registry) (a : ℕ)
    → IsValid r
    → a < r.next
    → ((r.heap a).state ≡ waiting) ⊎ Settled (r.heap a).state
states_reached r a v lt = elim (live_cases r v) [
  | inl rested ↦ inr (v.settled a (omega arith))
  | inr one ↦ elim (ℕ_discrete a (v.first + v.done)) [
    | yes here ↦ inl (ap (λ n. (r.heap n).state) here ∙ v.running one)
    | no there ↦ inr (v.settled a (omega arith))
  ]
]

-- In a valid registry the dictionary holds 257 operations at most, and `get` finds each of the
-- newest 256 by its id.
get_recent :
    (r : Registry)
    → IsValid r
    → (length r.operations ≤ 257)
      × ((a : ℕ) → a < r.next → r.next ≤ a + 256 → get (r.heap a).operation_id r ≡ some a)
unfolding get
get_recent r v = (
  omega (arith, ap length v.table, length-entries r.heap v.first (v.done + v.live)),
  λ a lt recent.
      ap (lookup (r.heap a).operation_id) v.table
      ∙ lookup-entries r.heap r.next v.first (v.done + v.live) a v.distinct (omega arith)
          (omega (arith, v.full)) (omega arith),
)

-- The four writes refuse and change nothing.
abbrev pub Refuses : String → ℕ → Registry → Type 0
Refuses id epoch r =
    (record_reached id epoch r ≡ some (r, false))
    × (record_link_lost id epoch r ≡ some (r, false))
    × ((reason : String) → record_uncertain reason id epoch r ≡ some (r, false))
    × (record_timed_out id epoch r ≡ some (r, false))

shut-Refuses :
    (id : String) (epoch : ℕ) (r : Registry) → is_active id epoch r ≡ false → Refuses id epoch r
unfolding record_reached record_link_lost record_uncertain
shut-Refuses id epoch r shut = (
  fenced_shut _ _ id epoch r shut,
  fenced_shut _ _ id epoch r shut,
  λ reason. fenced_shut _ reason id epoch r shut,
  timed_out_shut id epoch r shut,
)

-- In a valid registry an observer of an operation that is no longer the newest writes nothing,
-- whatever it reports.
stale-Refuses :
    (r : Registry) (a : ℕ)
    → IsValid r
    → suc a < r.next
    → Refuses (r.heap a).operation_id (r.heap a).epoch r
stale-Refuses r a v lt =
    shut-Refuses (r.heap a).operation_id (r.heap a).epoch r
      (elim (Bool-cases (is_active (r.heap a).operation_id (r.heap a).epoch r)) [
        | inr shut ↦ shut
        | inl opened ↦
            let (b, e, _, dated) = open_fence r _ _ r.next v refl opened in
            absurd (omega (arith, v.epochs a, v.epochs b))
      ])

-- After the release at shutdown no observer writes anything.
release_active-Refuses :
    (r : Registry) (id : String) (epoch : ℕ) → Refuses id epoch (release_active r)
unfolding release_active is_active owns
release_active-Refuses r id epoch = shut-Refuses id epoch (release_active r) refl

ended_self :
    (r : Registry) (n : ℕ) (operation : Operation) → (ended r n operation).heap n ≡ operation
unfolding mark_terminal update
ended_self r n operation = ground arith

-- In a valid registry whose newest operation is waiting, a newly accepted command takes over in
-- one step: the waiting operation is superseded and names its successor, the successor waits under
-- the next epoch, and it is the active owner.
activate_takes_over :
    (kind : OperationKind) (effect_sent ack now : Float) (id : String) (r : Registry) (n : ℕ)
    → IsValid r
    → r.next ≡ suc n
    → (r.heap n).state ≡ waiting
    → let (s, a) = activate kind effect_sent ack now id r in
      (a ≡ suc n)
      × (s.active ≡ some (suc n))
      × (s.heap n ≡ superseded_by id (r.heap n))
      × (s.heap (suc n) ≡ fresh_operation kind effect_sent ack now id (suc (suc n)))
unfolding activate update
activate_takes_over kind effect_sent ack now id r n v e w =
    let next_eq : (supersede r.active id r).next ≡ suc n =
      (supersede-Same r r.active id).next ∙ e in
    let took : supersede r.active id r ≡ ended r n (superseded_by id (r.heap n)) =
      ap (λ o. supersede o id r) (v.owner ∙ ap newest e) ∙ supersede_waiting r n id w in
    let left : (supersede r.active id r).heap n ≡ superseded_by id (r.heap n) =
      ap (λ (s : Registry). s.heap n) took ∙ ended_self r n (superseded_by id (r.heap n)) in
    (next_eq, ap some next_eq, ground arith, ground (arith, v.epoch_count))

pub newest_active :
    (r : Registry) (n : ℕ)
    → IsValid r
    → r.next ≡ suc n
    → is_active (r.heap n).operation_id (r.heap n).epoch r ≡ true
unfolding is_active owns
newest_active r n v e =
    ap (λ o. owns o r.heap (r.heap n).operation_id (r.heap n).epoch) (v.owner ∙ ap newest e)
    ∙ ground (arith, eq_iff (r.heap n).operation_id (r.heap n).operation_id)

-- A client's deadline is no cancellation: on the waiting newest operation of a valid registry the
-- write succeeds and changes nothing but the reason.
pub timed_out_keeps_waiting :
    (r : Registry) (n : ℕ)
    → IsValid r
    → r.next ≡ suc n
    → (r.heap n).state ≡ waiting
    → record_timed_out (r.heap n).operation_id (r.heap n).epoch r ≡ some (with_note r n, true)
timed_out_keeps_waiting r n v e w =
    opened_note (r.heap n).operation_id (r.heap n).epoch n r (newest_active r n v e)
      (newest_lookup r n v e)
    ∙ note_waiting r n w
