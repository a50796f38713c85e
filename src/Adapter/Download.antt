-- ===== src/Adapter/Download.antt =====
-- `download_mission` of src/mavctl/adapter/pymavlink_adapter.py: the question for the count, then
-- one item after the other, with what arrives out of order kept for later.
use mavctl.Prelude.{
  ℕ, zero, suc, ◌+◌, ◌-◌, Bool, true, false, Option, none, some, List, [], ◌∷◌, ◌++◌, ltb, leb,
  ◌==◌, if◌then◌else◌,
}
use mavctl.Models.State.{HomePosition}
use mavctl.Models.Mission.{MissionItem, MissionV1}
use mavctl.Missions.Wire.{mission_item_from_remote}
use mavctl.Missions.Schema.{mission_max_items, validate_downloaded}
use mavctl.Missions.HomeSlot.{is_home_slot_item}
use mavctl.Adapter.Inbox.{
  WireItem, Message, mission_item_int, Event, silent, received, mission_type_mission,
  mission_retries,
}
use mavctl.Adapter.Count.{
  Answer, counted, unanswered, denied, Question, Asking, waiting, answered, accept_count_or_ack,
  first_question, count_step,
}

-- How a download ends. `downloaded` is where the accepting `MISSION_ACK` is sent; `crashed` is an
-- exception of `round` or of the model.
pub data Ending : Type 0 where
  downloaded : MissionV1 → Ending
  timed_out crashed : Ending
  refused : ℕ → Ending
  too_many : ℕ → Ending
  unsupported : ℕ → ℕ → ℕ → Ending

-- The local variables of the loop over `range(count)`. `seq` is the item that is waited for, and
-- `later` how many follow it; `requested` lists the sent `MISSION_REQUEST_INT`s.
pub record Download : Type 0 where
  pub count : ℕ
  pub seq : ℕ
  pub later : ℕ
  pub buffer : ℕ → Option WireItem
  pub converted : List MissionItem
  pub resends : ℕ
  pub request_outstanding : Bool
  pub requested : List ℕ

pub data Downloading : Type 0 where
  counting : Question → Downloading
  fetching : Download → Downloading
  ended : Ending → Downloading

-- `accept_item`
unfoldable pub accept_item : Message → Bool
accept_item (mission_item_int seq item mission_type) = mission_type == mission_type_mission
accept_item _ = false

-- `received[n] = item`
abbrev pub keep : ℕ → WireItem → (ℕ → Option WireItem) → ℕ → Option WireItem
keep n item buffer m = if m == n then some item else buffer m

-- The request that opens a turn of the inner loop, unless one is outstanding.
unfoldable pub request_item : Download → Download
request_item d =
    if d.request_outstanding
    then d
    else record d { request_outstanding = true; requested = d.requested ++ d.seq ∷ [] }

-- `_check_home_slot_item`, with the cached home; `none` is the exception of `round`.
unfoldable pub check_home_slot_item : Option HomePosition → WireItem → Option Bool
unfolding is_home_slot_item
check_home_slot_item none item =
    is_home_slot_item item.fields item.current item.autocontinue none none none
check_home_slot_item (some home) item =
    is_home_slot_item item.fields item.current item.autocontinue home.lat_deg home.lon_deg
      home.alt_msl_m

unfoldable pub reject_item : ℕ → WireItem → Downloading
reject_item seq item = ended (unsupported seq item.fields.command item.fields.frame)

-- What the home slot's check leads to.
unfoldable pub judge_home : WireItem → Option Bool → Downloading → Downloading
unfolding reject_item
judge_home item none next = ended crashed
judge_home item (some false) next = reject_item 0 item
judge_home item (some true) next = next

-- `_convert_remote_item`
unfoldable pub convert_remote_item :
    ℕ → WireItem → List MissionItem → (List MissionItem → Downloading) → Downloading
unfolding reject_item mission_item_from_remote
convert_remote_item seq item converted next = elim (mission_item_from_remote item.fields) [
  | none ↦ reject_item seq item
  | some mission_item ↦ next (converted ++ mission_item ∷ [])
]

-- The item of the awaited number: the home slot is checked, another item is converted.
unfoldable pub take_item :
    Option HomePosition
    → ℕ
    → WireItem
    → List MissionItem
    → (List MissionItem → Downloading)
    → Downloading
unfolding check_home_slot_item judge_home convert_remote_item
take_item home seq item converted next =
    if seq == 0
    then judge_home item (check_home_slot_item home item) (next converted)
    else convert_remote_item seq item converted next

-- `DownloadedMissionV1(version=1, items=converted)`
unfoldable pub finish_mission : List MissionItem → Downloading
unfolding validate_downloaded
finish_mission items =
    if validate_downloaded (record { version = 1; items = items })
    then ended (downloaded (record { version = 1; items = items }))
    else ended crashed

-- The turns of `for seq in range(count)` from `seq` on, `left` of them: those whose item is
-- buffered, up to the first that is not.
unfoldable pub next_items :
    Option HomePosition
    → ℕ
    → ℕ
    → ℕ
    → (ℕ → Option WireItem)
    → List ℕ
    → List MissionItem
    → Downloading
unfolding finish_mission take_item request_item
next_items home count zero seq buffer requested converted = finish_mission converted
next_items home count (suc later) seq buffer requested converted = elim (buffer seq) [
  | none ↦ fetching (
      request_item (record {
        count = count;
        seq = seq;
        later = later;
        buffer = buffer;
        converted = converted;
        resends = 0;
        request_outstanding = false;
        requested = requested;
      }))
  | some item ↦
      take_item home seq item converted
        (λ items. next_items home count later (suc seq) buffer requested items)
]

-- A time-out while an item is awaited; the next turn asks again.
unfoldable pub on_item_silence : ℕ → Download → ℕ → Downloading
unfolding request_item
on_item_silence overall d now =
    if leb overall now
    then ended timed_out
    else if ltb mission_retries (d.resends + 1)
    then ended timed_out
    else fetching (request_item (record d { resends = d.resends + 1; request_outstanding = false }))

-- `elif 0 <= iseq < count and iseq not in received`
unfoldable pub buffer_item : ℕ → WireItem → Download → Download
buffer_item iseq item d =
    if ltb iseq d.count
    then (elim (d.buffer iseq) [
      | none ↦ record d { buffer = keep iseq item d.buffer }
      | some old ↦ d
    ])
    else d

unfoldable pub on_item : Option HomePosition → ℕ → WireItem → Download → Downloading
unfolding take_item next_items buffer_item
on_item home iseq item d =
    if iseq == d.seq
    then take_item home d.seq item d.converted (λ items.
      next_items home d.count d.later (suc d.seq) (keep d.seq item d.buffer) d.requested items)
    else fetching (buffer_item iseq item d)

unfoldable pub on_message : Option HomePosition → Message → Download → Downloading
unfolding accept_item on_item
on_message home (mission_item_int iseq item mission_type) d =
    if accept_item (mission_item_int iseq item mission_type)
    then on_item home iseq item d
    else fetching d
on_message home _ d = fetching d

-- What the answer to the count question leads to.
unfoldable pub on_count : Option HomePosition → Answer → Downloading
unfolding finish_mission next_items
on_count home (counted n) =
    if ltb mission_max_items (n - 1)
    then ended (too_many n)
    else if leb n 1
    then finish_mission []
    else next_items home n n 0 (λ _. none) [] []
on_count home unanswered = ended timed_out
on_count home (denied result) = ended (refused result)

unfoldable pub after_question : Option HomePosition → Asking → Downloading
unfolding on_count
after_question home (waiting q) = counting q
after_question home (answered q a) = on_count home a

-- One wait and what follows it.
unfoldable pub download_step : Option HomePosition → ℕ → Downloading → Event → Downloading
unfolding count_step after_question on_item_silence on_message accept_count_or_ack
download_step home overall (counting q) event =
    after_question home (count_step accept_count_or_ack overall q event)
download_step home overall (fetching d) (silent started now) = on_item_silence overall d now
download_step home overall (fetching d) (received m now after) = on_message home m d
download_step home overall (ended e) event = ended e

unfoldable pub download_run : Option HomePosition → ℕ → Downloading → List Event → Downloading
unfolding download_step
download_run home overall s [] = s
download_run home overall s (event ∷ events) =
    download_run home overall (download_step home overall s event) events

-- The download, with the cached home and its overall deadline.
unfoldable pub download_begin : Downloading
unfolding first_question
download_begin = counting first_question
