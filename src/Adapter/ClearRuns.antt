-- ===== src/Adapter/ClearRuns.antt =====
-- The clear transaction: no success without an ACK and a count of zero after it, two requests at
-- most, and an end with the first time-out at the deadline.
use native.Mathlib.Decide.{ℕ_discrete}
use mathlib.Core.Path.{subst}
use mavctl.Prelude.{
  ℕ, suc, ◌≡◌, ◌≢◌, ◌≤◌, refl, sym, ◌⊎◌, inl, inr, true, false, none, some, List, [], ◌∷◌, ◌++◌,
  arith, Bool-cases,
}
use mavctl.Adapter.Inbox.{Message, Event, silent, received}
use mavctl.Adapter.Count.{
  Answer, counted, unanswered, denied, Question, Asking, waiting, answered, accept_count_or_ack,
  first_question, count_step, on_unanswered,
}
use mavctl.Adapter.Clear.{
  Cleared, verified, not_cleared, Clear, unacknowledged, reading_back, done, accept_clear_ack,
  clear_begin, on_unacknowledged, judge, clear_step, clear_run,
}
use mavctl.Adapter.CountRuns.{
  Heard, Counts, IsPolite, Fair, step-Fair, first_question-IsPolite, Heard-later, Heard-now,
}

-- A message of one kind, and later one of another.
abbrev pub HeardThen : (Message → Type 0) → (Message → Type 0) → List Event → Type 0
HeardThen A B [] = ⊥
HeardThen A B (silent started now ∷ events) = HeardThen A B events
HeardThen A B (received m now after ∷ events) = (A m × Heard B events) ⊎ HeardThen A B events

-- A count of the mission, in a message that the read-back accepts.
abbrev pub ReadBack : ℕ → Message → Type 0
ReadBack n m = (accept_count_or_ack m ≡ true) × Counts n m

abbrev pub Acknowledges : Message → Type 0
Acknowledges m = accept_clear_ack m ≡ true

-- What an end of the transaction rests on.
abbrev pub RestsOn : (ℕ → Type 0) → Cleared → Type 0
RestsOn Read verified = Read 0
RestsOn Read (not_cleared none) = Unit {0}
RestsOn Read (not_cleared (some n)) = (n ≢ 0) × Read n

-- Two clear requests at most, and an end rests on what was heard.
abbrev pub Honest : (ℕ → Type 0) → Clear → Type 0
Honest Read (unacknowledged clears resends) = (clears ≡ suc resends) × (resends ≤ 1)
Honest Read (reading_back clears q) = (clears ≤ 2) × IsPolite q
Honest Read (done clears c) = (clears ≤ 2) × RestsOn Read c

Honest-map : (R S : ℕ → Type 0) (c : Clear) → ((n : ℕ) → R n → S n) → Honest R c → Honest S c
Honest-map R S (unacknowledged clears resends) f h = h
Honest-map R S (reading_back clears q) f h = h
Honest-map R S (done clears verified) f h = (h.0, f 0 h.1)
Honest-map R S (done clears (not_cleared none)) f h = h
Honest-map R S (done clears (not_cleared (some n))) f h = (h.0, (h.1.0, f n h.1.1))

judge_zero :
    (clears : ℕ) (q : Question) → judge clears (answered q (counted 0)) ≡ done clears verified
unfolding judge
judge_zero clears q = refl

judge_more :
    (clears n : ℕ) (q : Question)
    → n ≢ 0
    → judge clears (answered q (counted n)) ≡ done clears (not_cleared (some n))
unfolding judge
judge_more clears n q h = ground arith

done_run :
    (overall clears : ℕ) (c : Cleared) (events : List Event)
    → clear_run overall (done clears c) events ≡ done clears c
unfolding clear_run clear_step
done_run overall clears c [] = refl
done_run overall clears c (event ∷ events) = done_run overall clears c events

-- The run after an answer of the read-back.
judged :
    (overall clears : ℕ) (q : Question) (a : Answer) (event : Event) (events : List Event)
    → clears ≤ 2
    → Fair accept_count_or_ack (event ∷ []) (answered q a)
    → Honest
        (λ n. Heard (ReadBack n) (event ∷ events))
        (clear_run overall (judge clears (answered q a)) events)
unfolding judge
judged overall clears q (counted n) event events h f = elim (ℕ_discrete n 0) [
  | yes e ↦
      subst
        (λ k.
          Heard (ReadBack k) (event ∷ [])
          → Honest (λ m. Heard (ReadBack m) (event ∷ events))
              (clear_run overall (judge clears (answered q (counted k))) events))
        (sym e)
        (λ heard.
          rw (judge_zero clears q, done_run overall clears verified events)
            (h, Heard-now (ReadBack 0) event events heard))
        f.1
  | no more ↦
      rw (judge_more clears n q more, done_run overall clears (not_cleared (some n)) events)
        (h, (more, Heard-now (ReadBack n) event events f.1))
]
judged overall clears q unanswered event events h f =
    rw (done_run overall clears (not_cleared none) events) (h, tt)
judged overall clears q (denied result) event events h f =
    rw (done_run overall clears (not_cleared none) events) (h, tt)

read_on :
    (overall clears : ℕ) (p : Asking) (event : Event) (events : List Event)
    → clears ≤ 2
    → Fair accept_count_or_ack (event ∷ []) p
    → ((q : Question)
        → IsPolite q
        → Honest
            (λ n. Heard (ReadBack n) events)
            (clear_run overall (reading_back clears q) events))
    → Honest (λ n. Heard (ReadBack n) (event ∷ events)) (clear_run overall (judge clears p) events)
unfolding judge
read_on overall clears (waiting q) event events h f k =
    Honest-map (λ n. Heard (ReadBack n) events) (λ n. Heard (ReadBack n) (event ∷ events))
      (clear_run overall (reading_back clears q) events)
      (λ n. Heard-later (ReadBack n) event events) (k q f)
read_on overall clears (answered q a) event events h f k =
    judged overall clears q a event events h f

ReadBack-Honest :
    (overall clears : ℕ) (q : Question) (events : List Event)
    → clears ≤ 2
    → IsPolite q
    → Honest (λ n. Heard (ReadBack n) events) (clear_run overall (reading_back clears q) events)
unfolding clear_run clear_step
ReadBack-Honest overall clears q [] h v = (h, v)
ReadBack-Honest overall clears q (event ∷ events) h v =
    read_on overall clears (count_step accept_count_or_ack overall q event) event events h
      (step-Fair accept_count_or_ack overall q event v)
      (λ t w. ReadBack-Honest overall clears t events h w)

unanswered_cases :
    (overall clears resends now : ℕ)
    → resends ≤ 1
    → (on_unacknowledged overall clears resends now ≡ done clears (not_cleared none))
      ⊎ ((resends ≡ 0)
          × (on_unacknowledged overall clears resends now
              ≡ unacknowledged (suc clears) (suc resends)))
unfolding on_unacknowledged
unanswered_cases overall clears resends now h = ground arith

acknowledged_step :
    (overall clears resends now after : ℕ) (m : Message)
    → accept_clear_ack m ≡ true
    → clear_step overall (unacknowledged clears resends) (received m now after)
      ≡ reading_back clears first_question
unfolding clear_step
acknowledged_step overall clears resends now after m h = rw (h, clear_step) refl

dropped_step :
    (overall clears resends now after : ℕ) (m : Message)
    → accept_clear_ack m ≡ false
    → clear_step overall (unacknowledged clears resends) (received m now after)
      ≡ unacknowledged clears resends
unfolding clear_step
dropped_step overall clears resends now after m h = rw (h, clear_step) refl

unacknowledged-Honest :
    (overall clears resends : ℕ) (events : List Event)
    → clears ≡ suc resends
    → resends ≤ 1
    → Honest
        (λ n. HeardThen Acknowledges (ReadBack n) events)
        (clear_run overall (unacknowledged clears resends) events)
unfolding clear_run clear_step on_unacknowledged
unacknowledged-Honest overall clears resends [] e h = (e, h)
unacknowledged-Honest overall clears resends (silent started now ∷ events) e h =
    elim (unanswered_cases overall clears resends now h) [
      | inl over ↦ rw (over, done_run overall clears (not_cleared none) events) (omega arith, tt)
      | inr (first, again) ↦ rw again (
          unacknowledged-Honest overall (suc clears) (suc resends) events (omega arith)
            (omega arith))
    ]
unacknowledged-Honest overall clears resends (received m now after ∷ events) e h =
    elim (Bool-cases (accept_clear_ack m)) [
      | inl acked ↦
          subst
            (λ s.
              Honest (λ n. HeardThen Acknowledges (ReadBack n) (received m now after ∷ events))
                (clear_run overall s events))
            (sym (acknowledged_step overall clears resends now after m acked))
            (Honest-map (λ n. Heard (ReadBack n) events)
              (λ n. HeardThen Acknowledges (ReadBack n) (received m now after ∷ events))
              (clear_run overall (reading_back clears first_question) events)
              (λ n heard. inl (acked, heard))
              (ReadBack-Honest overall clears first_question events (omega arith)
                first_question-IsPolite))
      | inr dropped ↦
          subst
            (λ s.
              Honest (λ n. HeardThen Acknowledges (ReadBack n) (received m now after ∷ events))
                (clear_run overall s events))
            (sym (dropped_step overall clears resends now after m dropped))
            (Honest-map (λ n. HeardThen Acknowledges (ReadBack n) events)
              (λ n. HeardThen Acknowledges (ReadBack n) (received m now after ∷ events))
              (clear_run overall (unacknowledged clears resends) events) (λ n heard. inr heard)
              (unacknowledged-Honest overall clears resends events e h))
    ]

-- A clear is never reported as done on trust: it is verified only if the vehicle acknowledged it
-- and afterwards gave the count 0, an uncertain end that names a count gives a count other than 0
-- that was heard after the ACK, and `MISSION_CLEAR_ALL` is sent twice at most.
pub clear_run-Honest :
    (overall : ℕ) (events : List Event)
    → Honest
        (λ n. HeardThen Acknowledges (ReadBack n) events)
        (clear_run overall clear_begin events)
clear_run-Honest overall events = unacknowledged-Honest overall 1 0 events refl (omega arith)

-- The transaction is over.
abbrev pub IsDone : Clear → Type 0
IsDone (done clears c) = Unit {0}
IsDone _ = ⊥

late-IsDone :
    (overall started now : ℕ) (s : Clear)
    → overall ≤ now
    → IsDone (clear_step overall s (silent started now))
unfolding clear_step on_unacknowledged count_step on_unanswered judge
late-IsDone overall started now (unacknowledged clears resends) h = ground arith
late-IsDone overall started now (reading_back clears q) h = ground arith
late-IsDone overall started now (done clears c) h = tt

IsDone-stays :
    (overall : ℕ) (s : Clear) (events : List Event) → IsDone s → IsDone (clear_run overall s events)
IsDone-stays overall (done clears c) events h = rw (done_run overall clears c events) tt
IsDone-stays overall (unacknowledged clears resends) events h = absurd h
IsDone-stays overall (reading_back clears q) events h = absurd h

-- A clear ends with the first time-out at or after its deadline, whatever came before.
clear_run-IsDone :
    (overall started now : ℕ) (s : Clear) (before after : List Event)
    → overall ≤ now
    → IsDone (clear_run overall s (before ++ silent started now ∷ after))
unfolding clear_run
clear_run-IsDone overall started now s [] after h =
    IsDone-stays overall (clear_step overall s (silent started now)) after
      (late-IsDone overall started now s h)
clear_run-IsDone overall started now s (event ∷ before) after h =
    clear_run-IsDone overall started now (clear_step overall s event) before after h
