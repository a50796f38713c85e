-- ===== src/Operations/Fencing.antt =====
-- The fenced writes of observers: what they do to a valid registry, and that a stale observer
-- changes nothing.
use text.Mathlib.TextEquality.{eq_iff}
use mavctl.Prelude.{
  ℕ, zero, suc, ◌+◌, ◌≡◌, refl, ap, sym, ◌∙◌, ◌⊎◌, true, false, none, some, String, inl, inr,
  Bool-cases, arith,
}
use mavctl.Models.Operation.{OperationState, waiting, is_waiting}
use mavctl.Operations.Registry.{Registry, lookup, settle, owns, is_active, fenced_settle}
use mavctl.Operations.Table.{lookup-entries}
use mathlib.Core.Path.{subst}
use mavctl.Operations.Invariant.{live_cases, IsValid, Settled, newest, ended}

-- The operation at `a` is the newest one, the only one that may still be written.
abbrev pub IsNewest : Registry → ℕ → Type 0
IsNewest r a = r.next ≡ suc a

-- An open fence names the newest operation.
pub open_fence :
    (r : Registry) (id : String) (epoch n : ℕ)
    → IsValid r
    → r.next ≡ n
    → is_active id epoch r ≡ true
    → (a : ℕ) × (n ≡ suc a) × ((r.heap a).operation_id ≡ id) × ((r.heap a).epoch ≡ epoch)
unfolding is_active owns
open_fence r id epoch zero v e h =
    let owned : owns none r.heap id epoch ≡ true =
      sym (ap (λ o. owns o r.heap id epoch) (v.owner ∙ ap newest e)) ∙ h in
    cc owned
open_fence r id epoch (suc a) v e h =
    let owned : owns (some a) r.heap id epoch ≡ true =
      sym (ap (λ o. owns o r.heap id epoch) (v.owner ∙ ap newest e)) ∙ h in
    (a, refl, ground (arith, eq_iff (r.heap a).operation_id id), ground arith)

-- The newest operation is in the dictionary.
pub newest_lookup :
    (r : Registry) (a : ℕ) (v : IsValid r)
    → r.next ≡ suc a
    → lookup (r.heap a).operation_id r.operations ≡ some a
newest_lookup r a v e =
    ap (lookup (r.heap a).operation_id) v.table
    ∙ lookup-entries r.heap r.next v.first (v.done + v.live) a v.distinct (omega arith)
        (omega (arith, v.full)) (omega arith)

-- The write ends the operation at `n`, which the caller named by its id and epoch.
abbrev pub EndsAt : OperationState → String → String → ℕ → Registry → ℕ → Type 0
EndsAt state reason id epoch r n =
    ((r.heap n).operation_id ≡ id)
    × ((r.heap n).epoch ≡ epoch)
    × (fenced_settle state reason id epoch r
        ≡ some
            (ended r n (record (r.heap n) { state = state; terminal_reason = some reason }), true))

-- A terminal write either changes nothing and reports false, or ends the waiting operation.
abbrev pub Outcome : OperationState → String → String → ℕ → (r : Registry) → IsValid r → Type 0
Outcome state reason id epoch r v =
    (fenced_settle state reason id epoch r ≡ some (r, false))
    ⊎ ((v.live ≡ 1) × EndsAt state reason id epoch r (v.first + v.done))

pub settle_waiting :
    (state : OperationState) (reason : String) (r : Registry) (a : ℕ)
    → (r.heap a).state ≡ waiting
    → settle state reason (some a) r
      ≡ some (ended r a (record (r.heap a) { state = state; terminal_reason = some reason }), true)
unfolding settle is_waiting
settle_waiting state reason r a h = rw (h, settle) refl

settle-Settled :
    (state : OperationState) (reason : String) (r : Registry) (a : ℕ)
    → Settled (r.heap a).state
    → settle state reason (some a) r ≡ some (r, false)
unfolding settle is_waiting
settle-Settled state reason r a h = ground arith

pub opened_settle :
    (state : OperationState) (reason id : String) (epoch a : ℕ) (r : Registry)
    → is_active id epoch r ≡ true
    → lookup id r.operations ≡ some a
    → fenced_settle state reason id epoch r ≡ settle state reason (some a) r
unfolding fenced_settle
opened_settle state reason id epoch a r opened found = rw (opened, found, fenced_settle) refl

pub fenced_shut :
    (state : OperationState) (reason id : String) (epoch : ℕ) (r : Registry)
    → is_active id epoch r ≡ false
    → fenced_settle state reason id epoch r ≡ some (r, false)
unfolding fenced_settle
fenced_shut state reason id epoch r shut = rw (shut, fenced_settle) refl

pub fenced_settle-Outcome :
    (state : OperationState) (reason id : String) (epoch : ℕ) (r : Registry) (v : IsValid r)
    → Outcome state reason id epoch r v
fenced_settle-Outcome state reason id epoch r v = elim (Bool-cases (is_active id epoch r)) [
  | inr shut ↦ inl (fenced_shut state reason id epoch r shut)
  | inl opened ↦
      let (a, e, named, dated) = open_fence r id epoch r.next v refl opened in
      let found : lookup id r.operations ≡ some a =
        ap (λ k. lookup k r.operations) (sym named) ∙ newest_lookup r a v e in
      let step : fenced_settle state reason id epoch r ≡ settle state reason (some a) r =
        opened_settle state reason id epoch a r opened found in
      elim (live_cases r v) [
        | inl rested ↦ inl (step ∙ settle-Settled state reason r a (v.settled a (omega arith)))
        | inr one ↦
            let here : v.first + v.done ≡ a = omega arith in
            inr (
              one,
              subst (EndsAt state reason id epoch r) (sym here) (
                named,
                dated,
                step
                    ∙ settle_waiting state reason r a
                        (ap (λ n. (r.heap n).state) (sym here) ∙ v.running one),
              ),
            )
      ]
]
