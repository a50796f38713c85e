-- ===== src/Examples/UploadHistories.antt =====
-- The theorems on uploads, at a mission of two wire items over a link that repeats messages.
use mavctl.Prelude.{
  suc, pos, ◌≡◌, refl, some, List, [], ◌∷◌, ◌++◌, length, arith, is_finite, float_lt, float_le,
}
use mavctl.Missions.Schema.{is_valid_item}
use mavctl.Missions.Wire.{MissionItemIntFields}
use mavctl.Adapter.Inbox.{
  Event, mission_request, mission_request_int, mission_ack, silent, received,
}
use mavctl.Adapter.Upload.{wait_until, upload_step, wire_items, begin, upload_run, running}
use mavctl.Adapter.UploadOrder.{Holds}
use mavctl.Adapter.UploadRuns.{wire_items_total, upload_run-Holds, IsOver, upload_run-IsOver}
use mavctl.Adapter.UploadCompletes.{
  Cooperates, accepts, asks, repeats, stale, duplicate, Completes, upload_run-Completes,
}
use mavctl.Adapter.UploadCounts.{Patient, upload_run-Patient}
use mavctl.Examples.MissionRuns.{echoed}
use mavctl.Examples.Snapshots.{short_mission}

abbrev two_items : List MissionItemIntFields
two_items = record echoed { command = 16; x = pos 0; y = pos 0 } ∷ echoed ∷ []

-- A stale acceptance, then each request twice and the terminal acceptance.
abbrev history : List Event
history =
    received (mission_ack 0 0) 10 10
    ∷ received (mission_request 0 0) 20 21
    ∷ received (mission_request 0 0) 22 22
    ∷ received (mission_request 1 0) 30 31
    ∷ received (mission_ack 13 0) 40 40
    ∷ received (mission_ack 0 0) 50 50
    ∷ []

history-Cooperates : Cooperates two_items 0 history
history-Cooperates = stale 10 10 (omega arith) (
    asks 20 21 (omega arith) (
      repeats 0 22 22 (omega arith) (omega arith)
        (asks 30 31 (omega arith) (duplicate 40 40 (omega arith) (accepts 50 50)))))

upload_run-Completes_example :
    Completes two_items (upload_run two_items 15000000000 (running (begin two_items)) history)
upload_run-Completes_example =
    upload_run-Completes two_items 15000000000 history (omega arith) history-Cooperates

-- The vehicle asks ahead of the order.
upload_run-Holds_example : Holds two_items (
    upload_run two_items 15000000000
      (running (begin two_items))
      (received (mission_request_int 1 0) 20 21 ∷ []))
upload_run-Holds_example =
    upload_run-Holds two_items 15000000000 (received (mission_request_int 1 0) 20 21 ∷ [])
      (omega arith)

upload_run-IsOver_example : IsOver (
    upload_run two_items 15000000000
      (running (begin two_items))
      ((received (mission_request 0 0) 20 21 ∷ []) ++ silent 30 15000000000 ∷ []))
upload_run-IsOver_example =
    upload_run-IsOver two_items 15000000000 30 15000000000 (running (begin two_items))
      (received (mission_request 0 0) 20 21 ∷ []) [] (omega arith)

wire_items_total_example :
    (wire : List MissionItemIntFields) × (wire_items short_mission ≡ some wire)
    × (length wire ≡ suc (length short_mission.items))
unfolding is_valid_item is_finite float_lt float_le
wire_items_total_example = wire_items_total short_mission refl

-- One timely time-out before the vehicle asks.
upload_run-Patient_example : Patient two_items (
    upload_run two_items 15000000000
      (running (begin two_items))
      (silent 0 1000000000 ∷ received (mission_request 0 0) 1100000000 1100000001 ∷ []))
unfolding begin wait_until upload_step
upload_run-Patient_example =
    upload_run-Patient two_items 15000000000
      (silent 0 1000000000 ∷ received (mission_request 0 0) 1100000000 1100000001 ∷ [])
      (omega arith) (omega arith, (tt, tt))
