-- ===== src/Examples/RegistryRuns.antt =====
-- The theorems on the registry, at one with two operations: the first superseded, the second
-- waiting.
use text.Mathlib.TextEquality.{eq_iff}
use mavctl.Prelude.{zero, suc, ◌≡◌, refl, ap, true, false, [], ◌∷◌, some, seconds, arith}
use mavctl.Models.Operation.{takeoff, land, waiting, superseded, is_terminal, is_waiting}
use mavctl.Operations.Registry.{Registry, activate, record_timed_out, record_reached}
use mavctl.Operations.Invariant.{IsValid}
use mavctl.Operations.Activation.{Fresh, fresh_operation, activate-IsValid}
use mavctl.Operations.Calls.{activates, reaches, times_out, step, init, init-IsValid, step-IsValid}
use mavctl.Operations.Traces.{Run, here, next, Run-terminal_final}
use mavctl.Operations.Owner.{owner_of, Implements}
use mavctl.Operations.Owned.{call-Implements}
use mavctl.Operations.Replay.{
  answers, specified_answers, Admits, none_left, admits, answers-specified,
}

abbrev pub empty : Registry
empty = init (fresh_operation takeoff (seconds 0) (seconds 0) (seconds 0) "" 0)

pub empty-IsValid : IsValid empty
empty-IsValid = init-IsValid (fresh_operation takeoff (seconds 0) (seconds 0) (seconds 0) "" 0)

empty-Fresh : Fresh "op-1" empty
unfolding init
empty-Fresh a h = absurd (omega arith)

-- One takeoff, waiting.
abbrev pub one : Registry
one = (activate takeoff (seconds 1) (seconds 2) (seconds 3) "op-1" empty).0

pub one-IsValid : IsValid one
one-IsValid =
    activate-IsValid takeoff (seconds 1) (seconds 2) (seconds 3) "op-1" empty empty-IsValid
      empty-Fresh

pub one_next : one.next ≡ 1
unfolding activate init
one_next = refl

pub one_state : (one.heap 0).state ≡ waiting
unfolding activate init
one_state = refl

pub one-Fresh : Fresh "op-2" one
unfolding activate init
one-Fresh zero h = λ e. cc ((eq_iff "op-1" "op-2").1 e)
one-Fresh (suc a) h = absurd (omega arith)

-- A landing that supersedes it.
abbrev two : Registry
two = (activate land (seconds 4) (seconds 5) (seconds 6) "op-2" one).0

two-IsValid : IsValid two
two-IsValid =
    activate-IsValid land (seconds 4) (seconds 5) (seconds 6) "op-2" one one-IsValid one-Fresh

step-IsValid_example : (s : Registry) × (step (reaches "op-2" 2) two ≡ some s) × IsValid s
step-IsValid_example = step-IsValid (reaches "op-2" 2) two two-IsValid tt

two_next : two.next ≡ 2
unfolding activate init is_terminal
two_next = refl

two_first : (two.heap 0).state ≡ superseded
unfolding activate init is_terminal
two_first = refl

two_last : (two.heap 1).state ≡ waiting
unfolding activate init is_terminal
two_last = refl

two-Fresh : Fresh "op-3" two
unfolding activate init is_terminal
two-Fresh zero h = λ e. cc ((eq_iff "op-1" "op-3").1 e)
two-Fresh (suc zero) h = λ e. cc ((eq_iff "op-2" "op-3").1 e)
two-Fresh (suc (suc a)) h = absurd (omega (arith, two_next))

-- The history that adds a third operation.
two-Run : Run two (activate takeoff (seconds 7) (seconds 8) (seconds 9) "op-3" two).0
unfolding step
two-Run = next here (activates takeoff (seconds 7) (seconds 8) (seconds 9) "op-3") two-Fresh refl

Run-terminal_final_example :
    (activate takeoff (seconds 7) (seconds 8) (seconds 9) "op-3" two).0.heap 0 ≡ two.heap 0
unfolding is_terminal
Run-terminal_final_example =
    Run-terminal_final 0 (omega (arith, two_next)) (ap is_terminal two_first) two-Run

call-Implements_example : Implements (reaches "op-2" 2) two
call-Implements_example = call-Implements (reaches "op-2" 2) two two-IsValid tt

two-Admits : Admits (times_out "op-1" 1 ∷ reaches "op-2" 2 ∷ []) two
two-Admits = admits tt (λ s b e. admits tt (λ t c f. none_left))

answers-specified_example :
    answers (times_out "op-1" 1 ∷ reaches "op-2" 2 ∷ []) two
    ≡ some (specified_answers (times_out "op-1" 1 ∷ reaches "op-2" 2 ∷ []) (owner_of two))
answers-specified_example =
    answers-specified (times_out "op-1" 1 ∷ reaches "op-2" 2 ∷ []) two two-IsValid two-Admits

-- The stale observer is refused, and the owner's write succeeds.
two-answers : answers (times_out "op-1" 1 ∷ reaches "op-2" 2 ∷ []) two ≡ some (false ∷ true ∷ [])
unfolding answers record_timed_out is_terminal init record_reached is_waiting
two-answers = refl
