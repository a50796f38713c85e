-- ===== src/Adapter/Inbox.antt =====
-- What a mission transaction sees of the vehicle: the messages that `_wait_mission` hands over
-- and its time-outs (src/mavctl/adapter/pymavlink_adapter.py). Clock readings are nanoseconds.
use mavctl.Prelude.{ℕ, leb, if◌then◌else◌}
use mavctl.Missions.Wire.{MissionItemIntFields}

-- The fields of a `MISSION_ITEM_INT`.
pub record WireItem : Type 0 where
  pub fields : MissionItemIntFields
  pub current : ℕ
  pub autocontinue : ℕ

-- A received `MISSION_...` message with its `mission_type`.
pub data Message : Type 0 where
  mission_request mission_request_int : ℕ → ℕ → Message
  mission_ack : ℕ → ℕ → Message
  mission_count : ℕ → ℕ → Message
  mission_item_int : ℕ → WireItem → ℕ → Message
  mission_request_list mission_clear_all : ℕ → Message

-- The end of one `_wait_mission`: a time-out, with the reading from which `until` was computed and
-- the one after the wait, or a message, with the two readings that handling it makes.
pub data Event : Type 0 where
  silent : ℕ → ℕ → Event
  received : Message → ℕ → ℕ → Event

-- `MISSION_TYPE_MISSION`
abbrev pub mission_type_mission : ℕ
mission_type_mission = 0

-- `_MAV_MISSION_INVALID_SEQUENCE`
abbrev pub mav_mission_invalid_sequence : ℕ
mav_mission_invalid_sequence = 13

-- `_MISSION_REQUEST_TIMEOUT_S`
abbrev pub mission_request_timeout : ℕ
mission_request_timeout = 1000000000

-- `_MISSION_RETRIES`
abbrev pub mission_retries : ℕ
mission_retries = 3

-- `_MISSION_TRANSACTION_TIMEOUT_S`
abbrev pub mission_transaction_timeout : ℕ
mission_transaction_timeout = 15000000000

-- `_MISSION_ACK_WINDOW_S`
abbrev pub mission_ack_window : ℕ
mission_ack_window = 2000000000

-- `_MISSION_CLEAR_RESENDS`
abbrev pub mission_clear_resends : ℕ
mission_clear_resends = 1

-- `_MISSION_COUNT_RESENDS`
abbrev pub mission_count_resends : ℕ
mission_count_resends = 2

-- `_MISSION_DUPLICATE_REQUEST_DEBOUNCE_S`
abbrev pub mission_duplicate_request_debounce : ℕ
mission_duplicate_request_debounce = 250000000

-- `min(a, b)`
abbrev pub min : ℕ → ℕ → ℕ
min a b = if leb a b then a else b
