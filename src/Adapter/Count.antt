-- ===== src/Adapter/Count.antt =====
-- The question for the mission count, which `get_mission_count`, `download_mission` and the
-- read-back of `clear_mission` (`_request_count_locked`) put in the same way
-- (src/mavctl/adapter/pymavlink_adapter.py). They differ in the messages they accept.
use mavctl.Prelude.{ℕ, ◌+◌, Bool, true, false, ◌||◌, List, [], ◌∷◌, ltb, leb, ◌==◌, if◌then◌else◌}
use mavctl.Adapter.Inbox.{
  Message, mission_ack, mission_count, Event, silent, received, mission_type_mission,
  mav_mission_invalid_sequence, mission_count_resends,
}

-- The count, or an exception: no answer in time, or a denial with its result.
pub data Answer : Type 0 where
  counted : ℕ → Answer
  unanswered : Answer
  denied : ℕ → Answer

-- The local variables, and how many `MISSION_REQUEST_LIST` were sent.
pub record Question : Type 0 where
  pub request_outstanding : Bool
  pub resends : ℕ
  pub requests : ℕ

pub data Asking : Type 0 where
  waiting : Question → Asking
  answered : Question → Answer → Asking

-- `accept_count_or_ack`, which the download and the read-back use
unfoldable pub accept_count_or_ack : Message → Bool
accept_count_or_ack (mission_count n mission_type) = mission_type == mission_type_mission
accept_count_or_ack (mission_ack result mission_type) = mission_type == mission_type_mission
accept_count_or_ack _ = false

-- The filter of `get_mission_count`, which does not look at the mission type.
unfoldable pub accept_any_count_or_ack : Message → Bool
accept_any_count_or_ack (mission_count n mission_type) = true
accept_any_count_or_ack (mission_ack result mission_type) = true
accept_any_count_or_ack _ = false

-- The request that opens a turn of the loop, unless one is outstanding.
unfoldable pub ask : Question → Question
ask q =
    if q.request_outstanding
    then q
    else record q { request_outstanding = true; requests = q.requests + 1 }

-- The start: nothing sent, and the first turn of the loop begins.
unfoldable pub first_question : Question
unfolding ask
first_question = ask (record { request_outstanding = false; resends = 0; requests = 0 })

-- A time-out; the next turn asks again.
unfoldable pub on_unanswered : ℕ → Question → ℕ → Asking
unfolding ask
on_unanswered overall q now =
    if leb overall now
    then answered q unanswered
    else if ltb mission_count_resends (q.resends + 1)
    then answered (record q { resends = q.resends + 1 }) unanswered
    else waiting (ask (record q { resends = q.resends + 1; request_outstanding = false }))

unfoldable pub on_answer : Question → Message → Asking
unfolding ask
on_answer q (mission_ack result mission_type) =
    if result == 0 || result == mav_mission_invalid_sequence
    then waiting (ask q)
    else answered q (denied result)
on_answer q (mission_count n mission_type) = answered q (counted n)
on_answer q _ = waiting q

-- One wait and what follows it.
unfoldable pub count_step : (Message → Bool) → ℕ → Question → Event → Asking
unfolding on_unanswered on_answer
count_step accept overall q (silent started now) = on_unanswered overall q now
count_step accept overall q (received m now after) = if accept m then on_answer q m else waiting q

unfoldable pub count_run : (Message → Bool) → ℕ → Asking → List Event → Asking
unfolding count_step
count_run accept overall p [] = p
count_run accept overall (answered q a) events = answered q a
count_run accept overall (waiting q) (event ∷ events) =
    count_run accept overall (count_step accept overall q event) events
