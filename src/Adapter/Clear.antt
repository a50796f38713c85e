-- ===== src/Adapter/Clear.antt =====
-- `clear_mission` of src/mavctl/adapter/pymavlink_adapter.py: the clear request until its ACK,
-- then the read-back of the count.
use mavctl.Prelude.{
  ℕ, ◌+◌, Bool, false, Option, none, some, List, [], ◌∷◌, ltb, leb, ◌==◌, if◌then◌else◌,
}
use mavctl.Adapter.Inbox.{
  Message, mission_ack, Event, silent, received, mission_type_mission, mission_clear_resends,
}
use mavctl.Adapter.Count.{
  counted, unanswered, denied, Question, Asking, waiting, answered, accept_count_or_ack,
  first_question, count_step,
}

-- The outcome, which is always verified with a count of zero, or the exception
-- `MissionStateUncertainError` with the count that was observed, if one was.
pub data Cleared : Type 0 where
  verified : Cleared
  not_cleared : Option ℕ → Cleared

-- How many `MISSION_CLEAR_ALL` were sent and sent again, before the ACK and after it.
pub data Clear : Type 0 where
  unacknowledged : ℕ → ℕ → Clear
  reading_back : ℕ → Question → Clear
  done : ℕ → Cleared → Clear

-- `accept_clear_ack`
unfoldable pub accept_clear_ack : Message → Bool
accept_clear_ack (mission_ack result mission_type) = mission_type == mission_type_mission
accept_clear_ack _ = false

-- The state when the first `MISSION_CLEAR_ALL` has been sent.
abbrev pub clear_begin : Clear
clear_begin = unacknowledged 1 0

-- A time-out while the ACK is awaited.
unfoldable pub on_unacknowledged : ℕ → ℕ → ℕ → ℕ → Clear
on_unacknowledged overall clears resends now =
    if leb overall now
    then done clears (not_cleared none)
    else if ltb mission_clear_resends (resends + 1)
    then done clears (not_cleared none)
    else unacknowledged (clears + 1) (resends + 1)

-- What the answer of the read-back means.
unfoldable pub judge : ℕ → Asking → Clear
judge clears (waiting q) = reading_back clears q
judge clears (answered q (counted observed)) =
    if observed == 0 then done clears verified else done clears (not_cleared (some observed))
judge clears (answered q unanswered) = done clears (not_cleared none)
judge clears (answered q (denied result)) = done clears (not_cleared none)

unfoldable pub clear_step : ℕ → Clear → Event → Clear
unfolding on_unacknowledged judge first_question count_step accept_clear_ack
clear_step overall (unacknowledged clears resends) (silent started now) =
    on_unacknowledged overall clears resends now
clear_step overall (unacknowledged clears resends) (received m now after) =
    if accept_clear_ack m then reading_back clears first_question else unacknowledged clears resends
clear_step overall (reading_back clears q) event =
    judge clears (count_step accept_count_or_ack overall q event)
clear_step overall (done clears c) event = done clears c

unfoldable pub clear_run : ℕ → Clear → List Event → Clear
unfolding clear_step
clear_run overall s [] = s
clear_run overall s (event ∷ events) = clear_run overall (clear_step overall s event) events
