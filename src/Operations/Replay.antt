-- ===== src/Operations/Replay.antt =====
-- Sequences of registry calls, answered by the code and by the specification.
use mathlib.Core.Option
use mavctl.Prelude.{◌≡◌, refl, Bool, Option, none, some, List, [], ◌∷◌}
use mavctl.Operations.Registry.{Registry}
use mavctl.Operations.Invariant.{IsValid}
use mavctl.Operations.Calls.{Call, Allowed}
use mavctl.Operations.Owner.{Owner, owner_of, specified, answer}
use mavctl.Operations.Owned.{call-Implements}

-- The answers to a sequence of calls, of the code and of the specification.
unfoldable pub answers : List Call → Registry → Option (List Bool)
unfolding answer
answers [] r = some []
answers (c ∷ calls) r = elim (answer c r) [
  | none ↦ none
  | some (s, b) ↦ Option.map (λ bs. b ∷ bs) (answers calls s)
]

unfoldable pub specified_answers : List Call → Owner → List Bool
unfolding specified
specified_answers [] o = []
specified_answers (c ∷ calls) o = (specified c o).1 ∷ specified_answers calls (specified c o).0

-- The ids of the activations are new when they come.
pub data Admits : List Call → Registry → Type 0 where
  none_left : {r : Registry} → Admits [] r
  admits :
      {c : Call} {calls : List Call} {r : Registry}
      → Allowed c r
      → ((s : Registry) (b : Bool) → answer c r ≡ some (s, b) → Admits calls s)
      → Admits (c ∷ calls) r

-- No sequence of calls tells the registry from its specification: the Booleans that it returns are
-- those of a single owner with epochs, and a `KeyError` never comes, from a valid registry on and
-- with new ids.
pub answers-specified :
    (calls : List Call) (r : Registry)
    → IsValid r
    → Admits calls r
    → answers calls r ≡ some (specified_answers calls (owner_of r))
unfolding answers specified_answers
answers-specified [] r v none_left = refl
answers-specified (c ∷ calls) r v (admits allowed rest) =
    let (s, b, e, agrees, valid) = call-Implements c r v allowed in
    let later : answers calls s ≡ some (specified_answers calls (owner_of s)) =
      answers-specified calls s valid (rest s b e) in
    rw (e, later, answers) (cc agrees)
