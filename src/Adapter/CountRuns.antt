-- ===== src/Adapter/CountRuns.antt =====
-- The count question and the clear transaction: bounded requests, an end, and no success without
-- the vehicle's word.
use mavctl.Prelude.{ℕ, suc, ◌≡◌, ◌≢◌, ◌≤◌, refl, ◌⊎◌, inl, inr, Bool, true, List, [], ◌∷◌, arith}
use mavctl.Adapter.Inbox.{Message, mission_ack, mission_count, Event, silent, received}
use mavctl.Adapter.Count.{
  Answer, counted, unanswered, denied, Question, Asking, waiting, answered, ask, first_question,
  on_unanswered, on_answer, count_step, count_run,
}

-- The events contain a message that satisfies `P`.
abbrev pub Heard : (Message → Type 0) → List Event → Type 0
Heard P [] = ⊥
Heard P (silent started now ∷ events) = Heard P events
Heard P (received m now after ∷ events) = P m ⊎ Heard P events

-- The message answers with this count.
abbrev pub Counts : ℕ → Message → Type 0
Counts n (mission_count k mission_type) = n ≡ k
Counts n _ = ⊥

-- The message refuses with this result.
abbrev pub Denies : ℕ → Message → Type 0
Denies result (mission_ack k mission_type) = result ≡ k
Denies result _ = ⊥

-- What holds of the question: the requests are those of the resends, three at most.
pub record IsPolite (q : Question) : Type 0 where
  pub outstanding : q.request_outstanding ≡ true
  pub one_each : q.requests ≡ suc q.resends
  pub limited : q.resends ≤ 2

-- The answer is the vehicle's: a count or a denial was heard as such.
abbrev pub Told : (Message → Bool) → List Event → Answer → Type 0
Told accept events (counted n) = Heard (λ m. (accept m ≡ true) × Counts n m) events
Told accept events unanswered = Unit {0}
Told accept events (denied result) =
    (result ≢ 0) × Heard (λ m. (accept m ≡ true) × Denies result m) events

-- Three requests at most, and only an answer that was heard.
abbrev pub Fair : (Message → Bool) → List Event → Asking → Type 0
Fair accept events (waiting q) = IsPolite q
Fair accept events (answered q a) = (q.requests ≤ 3) × Told accept events a

pub first_question-IsPolite : IsPolite first_question
unfolding first_question ask
first_question-IsPolite = record { outstanding = refl; one_each = refl; limited = omega arith }

pub step-Fair :
    (accept : Message → Bool) (overall : ℕ) (q : Question) (event : Event)
    → IsPolite q
    → Fair accept (event ∷ []) (count_step accept overall q event)
unfolding count_step on_unanswered on_answer ask
step-Fair accept overall q (silent started now) v = ground arith
step-Fair accept overall q (received (mission_ack result t) now after) v = ground arith
step-Fair accept overall q (received (mission_count n t) now after) v = ground arith
step-Fair accept overall q (received m now after) v = ground arith

pub Heard-later :
    (P : Message → Type 0) (event : Event) (events : List Event)
    → Heard P events
    → Heard P (event ∷ events)
Heard-later P (silent started now) events h = h
Heard-later P (received m now after) events h = inr h

pub Heard-now :
    (P : Message → Type 0) (event : Event) (events : List Event)
    → Heard P (event ∷ [])
    → Heard P (event ∷ events)
Heard-now P (silent started now) events h = absurd h
Heard-now P (received m now after) events (inl h) = inl h
Heard-now P (received m now after) events (inr h) = absurd h

Told-later :
    (accept : Message → Bool) (event : Event) (events : List Event) (a : Answer)
    → Told accept events a
    → Told accept (event ∷ events) a
Told-later accept event events (counted n) h = Heard-later _ event events h
Told-later accept event events unanswered h = tt
Told-later accept event events (denied result) h = (h.0, Heard-later _ event events h.1)

Told-now :
    (accept : Message → Bool) (event : Event) (events : List Event) (a : Answer)
    → Told accept (event ∷ []) a
    → Told accept (event ∷ events) a
Told-now accept event events (counted n) h = Heard-now _ event events h
Told-now accept event events unanswered h = tt
Told-now accept event events (denied result) h = (h.0, Heard-now _ event events h.1)

Fair-later :
    (accept : Message → Bool) (event : Event) (events : List Event) (p : Asking)
    → Fair accept events p
    → Fair accept (event ∷ events) p
Fair-later accept event events (waiting q) h = h
Fair-later accept event events (answered q a) h = (h.0, Told-later accept event events a h.1)

ended_run :
    (accept : Message → Bool) (overall : ℕ) (q : Question) (a : Answer) (events : List Event)
    → count_run accept overall (answered q a) events ≡ answered q a
unfolding count_run
ended_run accept overall q a [] = refl
ended_run accept overall q a (event ∷ events) = refl

after_step :
    (accept : Message → Bool) (overall : ℕ) (p : Asking) (event : Event) (events : List Event)
    → Fair accept (event ∷ []) p
    → ((q : Question)
        → IsPolite q
        → Fair accept events (count_run accept overall (waiting q) events))
    → Fair accept (event ∷ events) (count_run accept overall p events)
after_step accept overall (waiting q) event events h k =
    Fair-later accept event events (count_run accept overall (waiting q) events) (k q h)
after_step accept overall (answered q a) event events h k =
    rw (ended_run accept overall q a events) (h.0, Told-now accept event events a h.1)

run-Fair :
    (accept : Message → Bool) (overall : ℕ) (events : List Event) (q : Question)
    → IsPolite q
    → Fair accept events (count_run accept overall (waiting q) events)
unfolding count_run
run-Fair accept overall [] q v = v
run-Fair accept overall (event ∷ events) q v =
    after_step accept overall (count_step accept overall q event) event events
      (step-Fair accept overall q event v) (λ t w. run-Fair accept overall events t w)

-- The question for the count sends three requests at most, and it never makes up an answer: a
-- count is one that an accepted message gave, and a denial has the result of an accepted ACK that
-- is not an acceptance.
count_run-Fair :
    (accept : Message → Bool) (overall : ℕ) (events : List Event)
    → Fair accept events (count_run accept overall (waiting first_question) events)
count_run-Fair accept overall events =
    run-Fair accept overall events first_question first_question-IsPolite
