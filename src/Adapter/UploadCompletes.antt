-- ===== src/Adapter/UploadCompletes.antt =====
-- An upload to a vehicle that asks for each item in turn succeeds, whatever a relay repeats.
use mavctl.Prelude.{
  ℕ, suc, ◌+◌, ◌-◌, ◌≡◌, ◌≤◌, ◌<◌, refl, sym, false, some, List, [], ◌∷◌, length, arith,
}
use mathlib.Core.Path.{subst}
use mavctl.Missions.Wire.{MissionItemIntFields}
use mavctl.Adapter.Inbox.{
  Message, mission_request, mission_ack, Event, received, mission_type_mission,
  mav_mission_invalid_sequence,
}
use mavctl.Adapter.Upload.{
  accepted, Upload, Progress, running, ended, begin, set_at, on_early_ack, on_request, on_late_ack,
  on_late_request, on_message, upload_step, upload_run, accept_request_or_ack,
}
use mavctl.Adapter.UploadOrder.{IsSound, Holds, sent_item}
use mavctl.Adapter.UploadRuns.{begin-IsSound, step-Holds}

-- The traffic of a vehicle that has the first `n` wire items: it asks for the next one and, with
-- all of them, accepts. In between come repeated requests, stale acceptances while items are
-- missing, rejections of duplicate items and messages of other kinds.
pub data Cooperates (wire : List MissionItemIntFields) : ℕ → List Event → Type 0 where
  accepts :
      (now after : ℕ)
      → Cooperates wire (length wire) (received (mission_ack 0 mission_type_mission) now after ∷ [])
  asks :
      {n : ℕ} {rest : List Event} (now after : ℕ)
      → n < length wire
      → Cooperates wire (suc n) rest
      → Cooperates wire n (received (mission_request n mission_type_mission) now after ∷ rest)
  repeats :
      {n : ℕ} {rest : List Event} (seq now after : ℕ)
      → seq < n
      → n ≤ length wire
      → Cooperates wire n rest
      → Cooperates wire n (received (mission_request seq mission_type_mission) now after ∷ rest)
  stale :
      {n : ℕ} {rest : List Event} (now after : ℕ)
      → n < length wire
      → Cooperates wire n rest
      → Cooperates wire n (received (mission_ack 0 mission_type_mission) now after ∷ rest)
  duplicate :
      {n : ℕ} {rest : List Event} (now after : ℕ)
      → 0 < n
      → Cooperates wire n rest
      → Cooperates wire n (
          received (mission_ack mav_mission_invalid_sequence mission_type_mission) now after ∷ rest)
  other :
      {n : ℕ} {rest : List Event} (m : Message) (now after : ℕ)
      → accept_request_or_ack m ≡ false
      → Cooperates wire n rest
      → Cooperates wire n (received m now after ∷ rest)

-- The transaction goes on and `n` items were sent.
record Reaches (n : ℕ) (p : Progress) : Type 0 where
  state : Upload
  goes_on : p ≡ running state
  sent_so_far : state.expected_next_seq ≡ n

asked :
    (wire : List MissionItemIntFields) (overall now after : ℕ) (s : Upload)
    → s.expected_next_seq < length wire
    → Reaches (suc s.expected_next_seq) (
        upload_step wire overall s
          (received (mission_request s.expected_next_seq mission_type_mission) now after))
unfolding upload_step accept_request_or_ack on_message on_request
asked wire overall now after s h =
    let sends =
      sent_item (Reaches (suc s.expected_next_seq)) wire s.expected_next_seq s
        (λ t. running (record t {
          last_sent_at = set_at t.last_sent_at s.expected_next_seq after;
          last_sent_seq = some s.expected_next_seq;
          items_sent = t.items_sent + 1;
          sent_upto = some s.expected_next_seq;
          expected_next_seq = suc s.expected_next_seq;
          resends = 0;
        }))
        h (λ fields found. record { state = _; goes_on = refl; sent_so_far = refl }) in
    ground (arith, sends)

repeat_asked :
    (wire : List MissionItemIntFields) (overall seq now after : ℕ) (s : Upload)
    → seq < s.expected_next_seq
    → s.expected_next_seq ≤ length wire
    → Reaches s.expected_next_seq
        (upload_step wire overall s (received (mission_request seq mission_type_mission) now after))
unfolding upload_step accept_request_or_ack on_message on_request on_late_request
repeat_asked wire overall seq now after s lt le =
    let early =
      sent_item (Reaches s.expected_next_seq) wire seq s
        (λ t. running (record t {
          last_sent_at = set_at t.last_sent_at seq after;
          last_sent_seq = some seq;
          resends = 0;
        }))
        (omega arith) (λ fields found. record { state = _; goes_on = refl; sent_so_far = refl }) in
    let late =
      sent_item (Reaches s.expected_next_seq) wire seq s running (omega arith)
        (λ fields found. record { state = _; goes_on = refl; sent_so_far = refl }) in
    let silent_case : Reaches s.expected_next_seq (running s) = record {
      state = s;
      goes_on = refl;
      sent_so_far = refl;
    } in
    ground (arith, early, late, silent_case)

-- A message that changes nothing.
unchanged :
    (wire : List MissionItemIntFields) (overall now after : ℕ) (s : Upload) (m : Message)
    → upload_step wire overall s (received m now after) ≡ running s
    → Reaches s.expected_next_seq (upload_step wire overall s (received m now after))
unchanged wire overall now after s m e = record { state = s; goes_on = e; sent_so_far = refl }

stale_ignored :
    (wire : List MissionItemIntFields) (overall now after : ℕ) (s : Upload)
    → s.expected_next_seq < length wire
    → upload_step wire overall s (received (mission_ack 0 mission_type_mission) now after)
      ≡ running s
unfolding upload_step accept_request_or_ack on_message on_early_ack
stale_ignored wire overall now after s h = ground arith

duplicate_ignored :
    (wire : List MissionItemIntFields) (overall now after : ℕ) (s : Upload)
    → IsSound wire s
    → 0 < s.expected_next_seq
    → upload_step wire overall s
        (received (mission_ack mav_mission_invalid_sequence mission_type_mission) now after)
      ≡ running s
unfolding upload_step accept_request_or_ack on_message on_early_ack on_late_ack
duplicate_ignored wire overall now after s v h = ground arith

other_ignored :
    (wire : List MissionItemIntFields) (overall now after : ℕ) (s : Upload) (m : Message)
    → accept_request_or_ack m ≡ false
    → upload_step wire overall s (received m now after) ≡ running s
unfolding upload_step
other_ignored wire overall now after s m h = ground arith

accepted_at_end :
    (wire : List MissionItemIntFields) (overall now after : ℕ) (s : Upload)
    → s.expected_next_seq ≡ length wire
    → upload_step wire overall s (received (mission_ack 0 mission_type_mission) now after)
      ≡ ended s (accepted (length wire - 1) (length wire - 1))
unfolding upload_step accept_request_or_ack on_message on_late_ack
accepted_at_end wire overall now after s h = ground arith

-- The transaction ended with an outcome that counts all items.
abbrev pub Completes : List MissionItemIntFields → Progress → Type 0
Completes wire p = (s : Upload) × (p ≡ ended s (accepted (length wire - 1) (length wire - 1)))

go_on :
    (wire : List MissionItemIntFields) (overall n : ℕ) (s : Upload) (event : Event)
    (rest : List Event)
    → 0 < length wire
    → IsSound wire s
    → Reaches n (upload_step wire overall s event)
    → ((t : Upload)
        → IsSound wire t
        → t.expected_next_seq ≡ n
        → Completes wire (upload_run wire overall (running t) rest))
    → Completes wire (upload_run wire overall (running s) (event ∷ rest))
unfolding upload_run
go_on wire overall n s event rest h v r k =
    let sound : IsSound wire r.state =
      subst (Holds wire) r.goes_on (step-Holds wire overall s event h v) in
    subst (λ p. Completes wire (upload_run wire overall p rest)) (sym r.goes_on)
      (k r.state sound r.sent_so_far)

from :
    (wire : List MissionItemIntFields) (overall n : ℕ) (events : List Event)
    → 0 < length wire
    → Cooperates wire n events
    → (s : Upload) → IsSound wire s
    → s.expected_next_seq ≡ n
    → Completes wire (upload_run wire overall (running s) events)
unfolding upload_run
from wire overall n events h (accepts now after) s v e =
    (s, accepted_at_end wire overall now after s e)
from wire overall n (event ∷ rest) h (asks now after lt c) s v e =
    go_on wire overall (suc n) s event rest h v
      (subst
        (λ k. Reaches (suc k) (
          upload_step wire overall s (received (mission_request k mission_type_mission) now after)))
        e (asked wire overall now after s (omega arith)))
      (from wire overall (suc n) rest h c)
from wire overall n (event ∷ rest) h (repeats seq now after lt le c) s v e =
    go_on wire overall n s event rest h v
      (subst (λ k. Reaches k (upload_step wire overall s event)) e
        (repeat_asked wire overall seq now after s (omega arith) (omega arith)))
      (from wire overall n rest h c)
from wire overall n (event ∷ rest) h (stale now after lt c) s v e =
    go_on wire overall n s event rest h v
      (subst (λ k. Reaches k (upload_step wire overall s event)) e
        (unchanged wire overall now after s (mission_ack 0 mission_type_mission)
          (stale_ignored wire overall now after s (omega arith))))
      (from wire overall n rest h c)
from wire overall n (event ∷ rest) h (duplicate now after lt c) s v e =
    go_on wire overall n s event rest h v
      (subst (λ k. Reaches k (upload_step wire overall s event)) e
        (unchanged wire overall now after s
          (mission_ack mav_mission_invalid_sequence mission_type_mission)
          (duplicate_ignored wire overall now after s v (omega arith))))
      (from wire overall n rest h c)
from wire overall n (event ∷ rest) h (other m now after dropped c) s v e =
    go_on wire overall n s event rest h v
      (subst (λ k. Reaches k (upload_step wire overall s event)) e
        (unchanged wire overall now after s m (other_ignored wire overall now after s m dropped)))
      (from wire overall n rest h c)

-- With a vehicle that asks for each of the wire items, at least one, in turn and then accepts, the
-- upload succeeds and reports all items, also when requests, acceptances and rejections of
-- duplicates are repeated on the way and messages of other kinds come in between.
pub upload_run-Completes :
    (wire : List MissionItemIntFields) (overall : ℕ) (events : List Event)
    → 0 < length wire
    → Cooperates wire 0 events
    → Completes wire (upload_run wire overall (running (begin wire)) events)
unfolding begin
upload_run-Completes wire overall events h c =
    from wire overall 0 events h c (begin wire) (begin-IsSound wire) refl
