-- ===== src/Adapter/UploadRuns.antt =====
-- Whole runs of an upload: they keep order, end in time and succeed with a vehicle that follows
-- the protocol.
use mavctl.Prelude.{
  ℕ, suc, ◌≡◌, ◌≤◌, ◌<◌, refl, ap, true, some, List, [], ◌∷◌, ◌++◌, length, all, arith,
}
use mavctl.Models.Mission.{MissionItem, MissionV1}
use mavctl.Missions.Schema.{is_valid_item}
use mavctl.Missions.Wire.{MissionItemIntFields, home_slot_int_fields}
use mavctl.Missions.Bounds.{to_int_fields_bounded}
use mavctl.Adapter.Inbox.{
  Message, mission_request, mission_request_int, mission_ack, Event, silent, received,
}
use mavctl.Adapter.Upload.{
  Upload, Progress, running, ended, begin, on_silence, on_late_silence, on_message, upload_step,
  upload_run, fields_of, wire_items,
}
use mavctl.Adapter.UploadOrder.{
  nothing, announced, IsSound, Holds, on_silence-Holds, on_late_silence-Holds, on_early_ack-Holds,
  on_late_ack-Holds, on_request-Holds, on_late_request-Holds,
}

fields_of_total :
    (items : List MissionItem)
    → all is_valid_item items ≡ true
    → (wire : List MissionItemIntFields) × (fields_of items ≡ some wire)
      × (length wire ≡ length items)
unfolding fields_of
fields_of_total [] v = ([], refl, refl)
fields_of_total (first ∷ rest) v =
    let (fields, e, _, _, _) = to_int_fields_bounded first (ground arith) in
    let (others, f, l) = fields_of_total rest (ground arith) in
    (fields ∷ others, rw (e, f) refl, ap suc l)

-- A mission of valid items always has its wire items: the home slot and one for each item.
pub wire_items_total :
    (mission : MissionV1)
    → all is_valid_item mission.items ≡ true
    → (wire : List MissionItemIntFields) × (wire_items mission ≡ some wire)
      × (length wire ≡ suc (length mission.items))
unfolding wire_items
wire_items_total mission v =
    let (others, f, l) = fields_of_total mission.items v in
    (home_slot_int_fields ∷ others, rw f refl, ap suc l)

pub begin-IsSound : (wire : List MissionItemIntFields) → IsSound wire (begin wire)
unfolding begin
begin-IsSound wire = record {
  order = announced nothing;
  bounded = omega arith;
  counted = refl;
  reported = refl;
  fresh = λ _. refl;
}

on_message-Holds :
    (wire : List MissionItemIntFields) (s : Upload) (m : Message) (now after : ℕ)
    → 0 < length wire
    → IsSound wire s
    → Holds wire (on_message wire s m now after)
unfolding on_message
on_message-Holds wire s (mission_request seq mission_type) now after h v =
    ground (
      arith,
      v.bounded,
      on_request-Holds wire s seq now after v,
      on_late_request-Holds wire s seq v,
    )
on_message-Holds wire s (mission_request_int seq mission_type) now after h v =
    ground (
      arith,
      v.bounded,
      on_request-Holds wire s seq now after v,
      on_late_request-Holds wire s seq v,
    )
on_message-Holds wire s (mission_ack result mission_type) now after h v =
    ground
      (arith, v.bounded, on_early_ack-Holds wire s result v, on_late_ack-Holds wire s result v h)
on_message-Holds wire s m now after h v = v

pub step-Holds :
    (wire : List MissionItemIntFields) (overall : ℕ) (s : Upload) (event : Event)
    → 0 < length wire
    → IsSound wire s
    → Holds wire (upload_step wire overall s event)
unfolding upload_step
step-Holds wire overall s (silent started now) h v = ground (
  arith,
  v.bounded,
  on_silence-Holds wire overall s now v,
  on_late_silence-Holds wire overall s now v h,
)
step-Holds wire overall s (received m now after) h v =
    ground (arith, on_message-Holds wire s m now after h v)

run-Holds :
    (wire : List MissionItemIntFields) (overall : ℕ) (p : Progress) (events : List Event)
    → 0 < length wire
    → Holds wire p
    → Holds wire (upload_run wire overall p events)
unfolding upload_run
run-Holds wire overall (running s) [] h v = v
run-Holds wire overall (ended s e) [] h v = v
run-Holds wire overall (ended s e) (event ∷ events) h v = v
run-Holds wire overall (running s) (event ∷ events) h v =
    run-Holds wire overall (upload_step wire overall s event) events h
      (step-Holds wire overall s event h v)

-- Whatever the vehicle sends and however long it is silent, an upload of at least one wire item
-- keeps strict order: each new item is the one after the last and an item is repeated only after
-- it was sent. If it ends, the ending tells the truth: accepted means that every wire item was
-- sent, a clean rejection that none was, an uncertain state or a sequence gap names the last item
-- sent, if any, and a gap is a request for an item ahead of the next one. It never ends with an
-- index error.
pub upload_run-Holds :
    (wire : List MissionItemIntFields) (overall : ℕ) (events : List Event)
    → 0 < length wire
    → Holds wire (upload_run wire overall (running (begin wire)) events)
upload_run-Holds wire overall events h =
    run-Holds wire overall (running (begin wire)) events h (begin-IsSound wire)

-- The transaction is over.
abbrev pub IsOver : Progress → Type 0
IsOver (running s) = ⊥
IsOver (ended s e) = Unit {0}

IsOver-stays :
    (wire : List MissionItemIntFields) (overall : ℕ) (p : Progress) (events : List Event)
    → IsOver p
    → IsOver (upload_run wire overall p events)
unfolding upload_run
IsOver-stays wire overall (running s) events h = absurd h
IsOver-stays wire overall (ended s e) [] h = tt
IsOver-stays wire overall (ended s e) (event ∷ events) h = tt

late_silence-IsOver :
    (wire : List MissionItemIntFields) (overall : ℕ) (s : Upload) (started now : ℕ)
    → overall ≤ now
    → IsOver (upload_step wire overall s (silent started now))
unfolding upload_step on_silence on_late_silence
late_silence-IsOver wire overall s started now h = ground arith

-- An upload ends with the first time-out at or after its deadline, whatever came before.
pub upload_run-IsOver :
    (wire : List MissionItemIntFields) (overall started now : ℕ) (p : Progress)
    (before after : List Event)
    → overall ≤ now
    → IsOver (upload_run wire overall p (before ++ silent started now ∷ after))
unfolding upload_run
upload_run-IsOver wire overall started now (running s) [] after h =
    IsOver-stays wire overall (upload_step wire overall s (silent started now)) after
      (late_silence-IsOver wire overall s started now h)
upload_run-IsOver wire overall started now (ended s e) [] after h = tt
upload_run-IsOver wire overall started now (ended s e) (event ∷ before) after h = tt
upload_run-IsOver wire overall started now (running s) (event ∷ before) after h =
    upload_run-IsOver wire overall started now (upload_step wire overall s event) before after h
