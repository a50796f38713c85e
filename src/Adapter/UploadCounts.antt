-- ===== src/Adapter/UploadCounts.antt =====
-- When an upload announces itself: it is patient once an item was sent.
use mavctl.Prelude.{
  ℕ, suc, ◌+◌, ◌≡◌, ◌≤◌, ◌<◌, refl, sym, inl, inr, Bool, true, false, Option, none, some, List, [],
  ◌∷◌, ◌++◌, length, get_elem?, arith, Option-cases,
}
use mathlib.Core.Path.{subst}
use mavctl.Missions.Wire.{MissionItemIntFields}
use mavctl.Adapter.Inbox.{
  Message, mission_request, mission_request_int, mission_ack, Event, silent, received,
}
use mavctl.Adapter.Upload.{
  Outgoing, count, item, index_error, Upload, Progress, running, ended, begin, wait_until, set_at,
  send_item, on_silence, on_early_ack, on_request, on_late_silence, on_late_ack, on_late_request,
  on_message, upload_step, upload_run,
}

-- The output is some announcements, four at most, and then only items.
pub data Opens (wire : List MissionItemIntFields) : ℕ → Bool → List Outgoing → Type 0 where
  once : Opens wire 1 false (count (length wire) ∷ [])
  more :
      {k : ℕ} {out : List Outgoing}
      → Opens wire k false out
      → k < 4
      → Opens wire (suc k) false (out ++ count (length wire) ∷ [])
  then :
      {k : ℕ} {b : Bool} {out : List Outgoing} (seq : ℕ) (fields : MissionItemIntFields)
      → Opens wire k b out
      → Opens wire k true (out ++ item seq fields ∷ [])

abbrev pub Said : List MissionItemIntFields → Option ℕ → ℕ → List Outgoing → Type 0
Said wire none resends out = Opens wire (suc resends) false out
Said wire (some seq) resends out = (k : ℕ) × Opens wire k true out

-- Before the first item there were only announcements, and no item was sent.
pub record IsPatient (wire : List MissionItemIntFields) (s : Upload) : Type 0 where
  pub said : Said wire s.last_sent_seq s.resends s.sent
  pub begun : s.last_sent_seq ≡ none → s.expected_next_seq ≡ 0

-- The output of a running or an ended transaction.
abbrev pub Patient : List MissionItemIntFields → Progress → Type 0
Patient wire (running s) = IsPatient wire s
Patient wire (ended s e) = (k : ℕ) × (b : Bool) × Opens wire k b s.sent

-- A wait that times out does so no earlier than it was asked to.
abbrev pub Timely : List MissionItemIntFields → ℕ → Upload → Event → Type 0
Timely wire overall s (silent started now) = wait_until wire overall s started ≤ now
Timely wire overall s (received m now after) = Unit {0}

Said-Opens :
    (wire : List MissionItemIntFields) (o : Option ℕ) (resends : ℕ) (out : List Outgoing)
    → Said wire o resends out
    → (k : ℕ) × (b : Bool) × Opens wire k b out
Said-Opens wire none resends out h = (suc resends, false, h)
Said-Opens wire (some seq) resends out (k, h) = (k, true, h)

item-Said :
    (wire : List MissionItemIntFields) (o : Option ℕ) (resends seq : ℕ) (out : List Outgoing)
    (fields : MissionItemIntFields)
    → Said wire o resends out
    → (k : ℕ) × Opens wire k true (out ++ item seq fields ∷ [])
item-Said wire none resends seq out fields h = (suc resends, then seq fields h)
item-Said wire (some last) resends seq out fields (k, h) = (k, then seq fields h)

send_any :
    (P : Progress → Type 0) (wire : List MissionItemIntFields) (seq : ℕ) (s : Upload)
    (go_on : Upload → Progress)
    → P (ended s index_error)
    → ((fields : MissionItemIntFields)
        → P (go_on (record s { sent = s.sent ++ item seq fields ∷ [] })))
    → P (send_item wire seq s go_on)
unfolding send_item
send_any P wire seq s go_on stop k = elim (Option-cases (get_elem? wire seq)) [
  | inl missing ↦ rw (missing, send_item) stop
  | inr (fields, found) ↦ rw (found, send_item) (k fields)
]

request-Patient :
    (wire : List MissionItemIntFields) (s : Upload) (seq now after : ℕ)
    → IsPatient wire s
    → Patient wire (on_request wire s seq now after)
unfolding on_request
request-Patient wire s seq now after v =
    let stop : (k : ℕ) × (b : Bool) × Opens wire k b s.sent =
      Said-Opens wire s.last_sent_seq s.resends s.sent v.said in
    let new =
      send_any (Patient wire) wire seq s
        (λ t. running (record t {
          last_sent_at = set_at t.last_sent_at seq after;
          last_sent_seq = some seq;
          items_sent = t.items_sent + 1;
          sent_upto = some seq;
          expected_next_seq = suc seq;
          resends = 0;
        }))
        stop
        (λ fields. record {
          said = item-Said wire s.last_sent_seq s.resends seq s.sent fields v.said;
          begun = λ e. cc e;
        }) in
    let old =
      send_any (Patient wire) wire seq s
        (λ t. running (record t {
          last_sent_at = set_at t.last_sent_at seq after;
          last_sent_seq = some seq;
          resends = 0;
        }))
        stop
        (λ fields. record {
          said = item-Said wire s.last_sent_seq s.resends seq s.sent fields v.said;
          begun = λ e. cc e;
        }) in
    ground (arith, stop, new, old)

late-IsPatient :
    (wire : List MissionItemIntFields) (s : Upload) (seq : ℕ) (fields : MissionItemIntFields)
    → IsPatient wire s
    → 0 < s.expected_next_seq
    → IsPatient wire (record s { sent = s.sent ++ item seq fields ∷ [] })
late-IsPatient wire s seq fields v h = late_case s.last_sent_seq refl v.said
  where
    late_case :
        (o : Option ℕ)
        → s.last_sent_seq ≡ o
        → Said wire o s.resends s.sent
        → IsPatient wire (record s { sent = s.sent ++ item seq fields ∷ [] })
    late_case none e t = absurd (omega (arith, v.begun e))
    late_case (some last) e (k, t) = record {
      said =
          subst (λ o. Said wire o s.resends (s.sent ++ item seq fields ∷ [])) (sym e)
            (k, then seq fields t);
      begun = v.begun;
    }

late_request-Patient :
    (wire : List MissionItemIntFields) (s : Upload) (seq : ℕ)
    → IsPatient wire s
    → 0 < s.expected_next_seq
    → Patient wire (on_late_request wire s seq)
unfolding on_late_request
late_request-Patient wire s seq v h =
    let sends =
      send_any (Patient wire) wire seq s running
        (Said-Opens wire s.last_sent_seq s.resends s.sent v.said)
        (λ fields. late-IsPatient wire s seq fields v h) in
    ground (arith, sends)

message-Patient :
    (wire : List MissionItemIntFields) (s : Upload) (m : Message) (now after : ℕ)
    → 0 < length wire
    → IsPatient wire s
    → Patient wire (on_message wire s m now after)
unfolding on_message on_early_ack on_late_ack
message-Patient wire s (mission_request seq mission_type) now after h v =
    ground (arith, request-Patient wire s seq now after v, late_request-Patient wire s seq v)
message-Patient wire s (mission_request_int seq mission_type) now after h v =
    ground (arith, request-Patient wire s seq now after v, late_request-Patient wire s seq v)
message-Patient wire s (mission_ack result mission_type) now after h v =
    ground (arith, Said-Opens wire s.last_sent_seq s.resends s.sent v.said)
message-Patient wire s m now after h v = v

wait_overall :
    (wire : List MissionItemIntFields) (overall : ℕ) (s : Upload) (last started : ℕ)
    → s.last_sent_seq ≡ some last
    → s.expected_next_seq < length wire
    → wait_until wire overall s started ≡ overall
unfolding wait_until
wait_overall wire overall s last started e lt = ground arith

silence-Patient :
    (wire : List MissionItemIntFields) (overall : ℕ) (s : Upload) (o : Option ℕ) (started now : ℕ)
    → s.last_sent_seq ≡ o
    → s.expected_next_seq < length wire
    → wait_until wire overall s started ≤ now
    → IsPatient wire s
    → Patient wire (on_silence wire overall s now)
unfolding on_silence
silence-Patient wire overall s none started now e lt t v =
    let opened : Opens wire (suc s.resends) false s.sent =
      subst (λ o. Said wire o s.resends s.sent) e v.said in
    let stop : (k : ℕ) × (b : Bool) × Opens wire k b s.sent = (suc s.resends, false, opened) in
    let again : s.resends < 3
        → IsPatient wire
            (record s { resends = suc s.resends; sent = s.sent ++ count (length wire) ∷ [] }) =
      λ few. record {
        said =
            subst (λ o. Said wire o (suc s.resends) (s.sent ++ count (length wire) ∷ [])) (sym e)
              (more opened (omega arith));
        begun = v.begun;
      } in
    ground (arith, stop, again)
silence-Patient wire overall s (some last) started now e lt t v =
    let stop : (k : ℕ) × (b : Bool) × Opens wire k b s.sent =
      Said-Opens wire s.last_sent_seq s.resends s.sent v.said in
    ground (arith, stop, wait_overall wire overall s last started e lt)

step-Patient :
    (wire : List MissionItemIntFields) (overall : ℕ) (s : Upload) (event : Event)
    → 0 < length wire
    → Timely wire overall s event
    → IsPatient wire s
    → Patient wire (upload_step wire overall s event)
unfolding upload_step on_late_silence
step-Patient wire overall s (silent started now) h t v =
    let early : s.expected_next_seq < length wire → Patient wire (on_silence wire overall s now) =
      λ lt. silence-Patient wire overall s s.last_sent_seq started now refl lt t v in
    ground (arith, Said-Opens wire s.last_sent_seq s.resends s.sent v.said, early)
step-Patient wire overall s (received m now after) h t v =
    ground (arith, message-Patient wire s m now after h v)

-- Every time-out of a history is timely in the state that it meets.
abbrev pub AllTimely : List MissionItemIntFields → ℕ → Progress → List Event → Type 0
AllTimely wire overall p [] = Unit {0}
AllTimely wire overall (ended s e) events = Unit {0}
AllTimely wire overall (running s) (event ∷ events) =
    Timely wire overall s event × AllTimely wire overall (upload_step wire overall s event) events

run-Patient :
    (wire : List MissionItemIntFields) (overall : ℕ) (p : Progress) (events : List Event)
    → 0 < length wire
    → AllTimely wire overall p events
    → Patient wire p
    → Patient wire (upload_run wire overall p events)
unfolding upload_run
run-Patient wire overall (running s) [] h t v = v
run-Patient wire overall (ended s e) [] h t v = v
run-Patient wire overall (ended s e) (event ∷ events) h t v = v
run-Patient wire overall (running s) (event ∷ events) h t v =
    run-Patient wire overall (upload_step wire overall s event) events h t.1
      (step-Patient wire overall s event h t.0 v)

-- In an upload of at least one wire item in which no wait times out before the time it was given,
-- `MISSION_COUNT` is sent four times at most and never again once an item was sent.
pub upload_run-Patient :
    (wire : List MissionItemIntFields) (overall : ℕ) (events : List Event)
    → 0 < length wire
    → AllTimely wire overall (running (begin wire)) events
    → Patient wire (upload_run wire overall (running (begin wire)) events)
unfolding begin
upload_run-Patient wire overall events h t =
    run-Patient wire overall (running (begin wire)) events h t
      (record { said = once; begun = λ _. refl })
