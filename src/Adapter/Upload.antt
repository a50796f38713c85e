-- ===== src/Adapter/Upload.antt =====
-- `upload_mission` of src/mavctl/adapter/pymavlink_adapter.py as a machine that one wait after
-- another drives. `wire` is the list of wire items, `overall` the deadline of the transaction.
use mavctl.Prelude.{
  ℕ, suc, ◌+◌, ◌-◌, Bool, false, ◌&&◌, Option, none, some, List, [], ◌∷◌, ◌++◌, ltb, leb, ◌==◌,
  if◌then◌else◌, length, get_elem?, ◌>>=◌,
}
use mavctl.Models.Mission.{MissionItem, MissionV1}
use mavctl.Missions.Wire.{MissionItemIntFields, mission_item_to_int_fields, home_slot_int_fields}
use mavctl.Adapter.Inbox.{
  Message, mission_request, mission_request_int, mission_ack, Event, silent, received, min,
  mission_type_mission, mav_mission_invalid_sequence, mission_request_timeout, mission_retries,
  mission_ack_window, mission_duplicate_request_debounce,
}

-- What the transaction sends.
pub data Outgoing : Type 0 where
  count : ℕ → Outgoing
  item : ℕ → MissionItemIntFields → Outgoing

-- How it ends: a `MissionOutcome` with its `item_count` and `sent_upto`, or an exception:
-- `MissionProtocolError` with the result, `MissionStateUncertainError` with `sent_upto`,
-- `_MissionSequenceGapError`, or an `IndexError`.
pub data Ending : Type 0 where
  accepted : ℕ → ℕ → Ending
  rejected : ℕ → Ending
  uncertain : Option ℕ → Ending
  sequence_gap : ℕ → ℕ → Option ℕ → Ending
  index_error : Ending

-- The local variables of `upload_mission`, and what was sent.
pub record Upload : Type 0 where
  pub expected_next_seq : ℕ
  pub items_sent : ℕ
  pub last_sent_seq : Option ℕ
  pub sent_upto : Option ℕ
  pub last_sent_at : ℕ → Option ℕ
  pub resends : ℕ
  pub sent : List Outgoing

pub data Progress : Type 0 where
  running : Upload → Progress
  ended : Upload → Ending → Progress

-- The fields of all wire items.
unfoldable pub fields_of : List MissionItem → Option (List MissionItemIntFields)
fields_of [] = some []
fields_of (first ∷ rest) = do
  fields ← mission_item_to_int_fields first
  others ← fields_of rest
  some (fields ∷ others)

-- `wire_items`: the home slot and the items.
unfoldable pub wire_items : MissionV1 → Option (List MissionItemIntFields)
unfolding fields_of
wire_items mission = do others ← fields_of mission.items; some (home_slot_int_fields ∷ others)

-- `accept_request_or_ack`
unfoldable pub accept_request_or_ack : Message → Bool
accept_request_or_ack (mission_request seq mission_type) = mission_type == mission_type_mission
accept_request_or_ack (mission_request_int seq mission_type) = mission_type == mission_type_mission
accept_request_or_ack (mission_ack result mission_type) = mission_type == mission_type_mission
accept_request_or_ack _ = false

-- The state when `MISSION_COUNT` has been sent.
unfoldable pub begin : List MissionItemIntFields → Upload
begin wire = record {
  expected_next_seq = 0;
  items_sent = 0;
  last_sent_seq = none;
  sent_upto = none;
  last_sent_at = λ _. none;
  resends = 0;
  sent = count (length wire) ∷ [];
}

-- `until` of the next wait, from the clock reading before it.
unfoldable pub wait_until : List MissionItemIntFields → ℕ → Upload → ℕ → ℕ
wait_until wire overall s now =
    if ltb s.expected_next_seq (length wire)
    then (elim s.last_sent_seq [
      | none ↦ min overall (now + mission_request_timeout)
      | some _ ↦ overall
    ])
    else min overall (now + mission_ack_window)

abbrev pub set_at : (ℕ → Option ℕ) → ℕ → ℕ → ℕ → Option ℕ
set_at at seq now n = if n == seq then some now else at n

-- `self._send_mission_item(master, wire_items[seq], seq)`
unfoldable pub send_item : List MissionItemIntFields → ℕ → Upload → (Upload → Progress) → Progress
send_item wire seq s go_on = elim (get_elem? wire seq) [
  | none ↦ ended s index_error
  | some fields ↦ go_on (record s { sent = s.sent ++ item seq fields ∷ [] })
]

-- A time-out while items are outstanding.
unfoldable pub on_silence : List MissionItemIntFields → ℕ → Upload → ℕ → Progress
on_silence wire overall s now =
    if leb overall now
    then ended s (uncertain s.sent_upto)
    else if ltb mission_retries (suc s.resends)
    then ended (record s { resends = suc s.resends }) (uncertain s.sent_upto)
    else running (record s { resends = suc s.resends; sent = s.sent ++ count (length wire) ∷ [] })

-- A `MISSION_ACK` while items are outstanding.
unfoldable pub on_early_ack : Upload → ℕ → Progress
on_early_ack s result =
    if result == 0
    then running s
    else if result == mav_mission_invalid_sequence && ltb 0 s.items_sent
    then running s
    else if s.items_sent == 0
    then ended s (rejected result)
    else ended s (uncertain s.sent_upto)

-- `age < _MISSION_DUPLICATE_REQUEST_DEBOUNCE_S`
abbrev pub is_too_soon : Option ℕ → ℕ → Bool
is_too_soon none now = false
is_too_soon (some at) now = ltb now (at + mission_duplicate_request_debounce)

-- A request while items are outstanding; `now` and `after` are the clock before and after a send.
unfoldable pub on_request : List MissionItemIntFields → Upload → ℕ → ℕ → ℕ → Progress
unfolding send_item
on_request wire s seq now after =
    if leb (length wire) seq
    then ended s (sequence_gap s.expected_next_seq seq s.sent_upto)
    else if ltb s.expected_next_seq seq
    then ended s (sequence_gap s.expected_next_seq seq s.sent_upto)
    else if seq == s.expected_next_seq
    then send_item wire seq s (λ t. running (record t {
      last_sent_at = set_at t.last_sent_at seq after;
      last_sent_seq = some seq;
      items_sent = t.items_sent + 1;
      sent_upto = some seq;
      expected_next_seq = suc seq;
      resends = 0;
    }))
    else if is_too_soon (s.last_sent_at seq) now
    then running s
    else send_item wire seq s (λ t. running (record t {
      last_sent_at = set_at t.last_sent_at seq after;
      last_sent_seq = some seq;
      resends = 0;
    }))

-- A time-out, an ACK and a request while the terminal ACK is awaited.
unfoldable pub on_late_silence : List MissionItemIntFields → ℕ → Upload → ℕ → Progress
on_late_silence wire overall s now =
    if leb overall now then ended s (uncertain (some (length wire - 1))) else running s

unfoldable pub on_late_ack : List MissionItemIntFields → Upload → ℕ → Progress
on_late_ack wire s result =
    if result == 0
    then ended s (accepted (length wire - 1) (length wire - 1))
    else if result == mav_mission_invalid_sequence
    then running s
    else ended s (uncertain (some (length wire - 1)))

unfoldable pub on_late_request : List MissionItemIntFields → Upload → ℕ → Progress
unfolding send_item
on_late_request wire s seq =
    if ltb seq (length wire) then send_item wire seq s running else running s

-- Handling a message, by the loop that the transaction is in.
unfoldable pub on_message : List MissionItemIntFields → Upload → Message → ℕ → ℕ → Progress
unfolding on_early_ack on_request on_late_ack on_late_request
on_message wire s (mission_request seq mission_type) now after =
    if ltb s.expected_next_seq (length wire)
    then on_request wire s seq now after
    else on_late_request wire s seq
on_message wire s (mission_request_int seq mission_type) now after =
    if ltb s.expected_next_seq (length wire)
    then on_request wire s seq now after
    else on_late_request wire s seq
on_message wire s (mission_ack result mission_type) now after =
    if ltb s.expected_next_seq (length wire)
    then on_early_ack s result
    else on_late_ack wire s result
on_message wire s _ now after = running s

-- One wait and what follows it. A message that is not accepted is dropped by the wait.
unfoldable pub upload_step : List MissionItemIntFields → ℕ → Upload → Event → Progress
unfolding accept_request_or_ack on_silence on_late_silence on_message
upload_step wire overall s (silent started now) =
    if ltb s.expected_next_seq (length wire)
    then on_silence wire overall s now
    else on_late_silence wire overall s now
upload_step wire overall s (received m now after) =
    if accept_request_or_ack m then on_message wire s m now after else running s

-- The transaction, as far as the events go.
unfoldable pub upload_run : List MissionItemIntFields → ℕ → Progress → List Event → Progress
unfolding upload_step
upload_run wire overall p [] = p
upload_run wire overall (ended s e) events = ended s e
upload_run wire overall (running s) (event ∷ events) =
    upload_run wire overall (upload_step wire overall s event) events
