-- ===== src/Adapter/DownloadHonest.antt =====
-- The mission round trip: what an upload puts on the vehicle, a download reads back.
use mathlib.Core.Path.{subst}
use mathlib.Core.List.{append-nil, append_assoc}
use mavctl.Prelude.{
  ℕ, suc, ◌≡◌, ◌≤◌, ◌<◌, refl, sym, ap, ◌∙◌, true, Option, none, some, List, [], ◌∷◌, ◌++◌, length,
  All, all, arith,
}
use mavctl.Models.State.{HomePosition}
use mavctl.Models.Mission.{MissionItem, MissionV1}
use mavctl.Missions.Wire.{
  MissionItemIntFields, mission_item_to_int_fields, mission_item_from_remote, is_frame_supported,
}
use mavctl.Missions.Schema.{validate_mission, validate_downloaded, is_valid_item}
use mavctl.Missions.Carried.{HasExact, stored-item}
use mavctl.Adapter.Inbox.{
  WireItem, mission_item_int, mission_count, Event, received, mission_type_mission,
}
use mavctl.Adapter.Count.{first_question, count_step, on_answer, ask, accept_count_or_ack}
use mavctl.Adapter.Upload.{fields_of}
use mavctl.Adapter.Download.{
  downloaded, ended, accept_item, keep, request_item, check_home_slot_item, judge_home,
  convert_remote_item, take_item, finish_mission, next_items, on_item, on_message, on_count,
  after_question, download_step, download_run, download_begin,
}

-- The vehicle's answers to the requests for the items from `seq` on.
abbrev pub item_events : ℕ → ℕ → ℕ → List WireItem → List Event
item_events now after seq [] = []
item_events now after seq (w ∷ ws) =
    received (mission_item_int seq w mission_type_mission) now after
    ∷ item_events now after (suc seq) ws

-- The whole exchange: the count, then the items.
abbrev pub honest_events : ℕ → ℕ → List WireItem → List Event
honest_events now after ws =
    received (mission_count (length ws) mission_type_mission) now after ∷ item_events now after 0 ws

-- The vehicle stores the fields as they were sent, up to the frame, which is one that mavctl knows.
abbrev pub Stores : List MissionItemIntFields → List WireItem → Type 0
Stores [] [] = Unit {0}
Stores (f ∷ fs) (w ∷ ws) =
    ((frame : ℕ) × (w.fields ≡ record f { frame = frame })
      × (is_frame_supported f.command frame ≡ true))
    × Stores fs ws
Stores _ _ = ⊥

-- The items are the readings of the wire items.
abbrev Reads : List WireItem → List MissionItem → Type 0
Reads [] [] = Unit {0}
Reads (w ∷ ws) (item ∷ items) = (mission_item_from_remote w.fields ≡ some item) × Reads ws items
Reads _ _ = ⊥

step_item :
    (home : Option HomePosition) (overall count later s now after : ℕ)
    (buffer : ℕ → Option WireItem) (requested : List ℕ) (converted : List MissionItem)
    (w : WireItem) (item : MissionItem)
    → buffer (suc s) ≡ none
    → mission_item_from_remote w.fields ≡ some item
    → download_step home overall
        (next_items home count (suc later) (suc s) buffer requested converted)
        (received (mission_item_int (suc s) w mission_type_mission) now after)
      ≡ next_items home count later
          (suc (suc s))
          (keep (suc s) w buffer)
          (requested ++ suc s ∷ [])
          (converted ++ item ∷ [])
unfolding download_step on_message accept_item on_item take_item convert_remote_item request_item
    next_items
step_item home overall count later s now after buffer requested converted w item e f = ground arith

items_read :
    (home : Option HomePosition) (overall count s now after : ℕ) (buffer : ℕ → Option WireItem)
    (requested : List ℕ) (converted : List MissionItem) (ws : List WireItem)
    (items : List MissionItem)
    → ((n : ℕ) → s < n → buffer n ≡ none)
    → Reads ws items
    → download_run home overall
        (next_items home count (length ws) (suc s) buffer requested converted)
        (item_events now after (suc s) ws)
      ≡ finish_mission (converted ++ items)
unfolding download_run
items_read home overall count s now after buffer requested converted [] [] b r =
    sym (ap finish_mission (append-nil converted))
items_read home overall count s now after buffer requested converted [] (item ∷ items) b r =
    absurd r
items_read home overall count s now after buffer requested converted (w ∷ ws) [] b r = absurd r
items_read home overall count s now after buffer requested converted (w ∷ ws) (item ∷ items) b
      (e, r) =
    ap (λ t. download_run home overall t (item_events now after (suc (suc s)) ws))
      (step_item home overall count (length ws) s now after buffer requested converted w item
        (b (suc s) (omega arith)) e)
    ∙ items_read home overall count (suc s) now after (keep (suc s) w buffer)
        (requested ++ suc s ∷ []) (converted ++ item ∷ []) ws items (λ n h. ground (arith, b n)) r
    ∙ ap finish_mission (append_assoc converted (item ∷ []) items)

home_step :
    (home : Option HomePosition) (overall count later now after : ℕ) (w : WireItem)
    → check_home_slot_item home w ≡ some true
    → download_step home overall
        (next_items home count (suc later) 0 (λ _. none) [] [])
        (received (mission_item_int 0 w mission_type_mission) now after)
      ≡ next_items home count later 1 (keep 0 w (λ _. none)) (0 ∷ []) []
unfolding download_step on_message accept_item on_item take_item judge_home request_item next_items
home_step home overall count later now after w e = ground arith

opening_step :
    (home : Option HomePosition) (overall n now after : ℕ)
    → 2 ≤ n
    → n ≤ 101
    → download_step home overall download_begin
        (received (mission_count n mission_type_mission) now after)
      ≡ next_items home n n 0 (λ _. none) [] []
unfolding download_step download_begin count_step on_answer accept_count_or_ack after_question
    on_count first_question ask
opening_step home overall n now after lo hi = ground arith

fields_split :
    (item : MissionItem) (items : List MissionItem) (f : MissionItemIntFields)
    (fs : List MissionItemIntFields) (o : Option (List MissionItemIntFields))
    → mission_item_to_int_fields item ≡ some f
    → fields_of items ≡ o
    → fields_of (item ∷ items) ≡ some fs
    → (gs : List MissionItemIntFields) × (fields_of items ≡ some gs) × (fs ≡ f ∷ gs)
unfolding fields_of
fields_split item items f fs none e g h = absurd (ground arith)
fields_split item items f fs (some gs) e g h = (gs, g, ground arith)

first-Reads :
    (f : MissionItemIntFields) (gs : List MissionItemIntFields) (item : MissionItem)
    (items : List MissionItem) (ws : List WireItem)
    → ((frame : ℕ)
        → is_frame_supported f.command frame ≡ true
        → mission_item_from_remote (record f { frame = frame }) ≡ some item)
    → ((vs : List WireItem) → Stores gs vs → Reads vs items)
    → Stores (f ∷ gs) ws
    → Reads ws (item ∷ items)
first-Reads f gs item items [] back rest s = absurd s
first-Reads f gs item items (w ∷ ws) back rest ((frame, same, known), s) =
    (ap mission_item_from_remote same ∙ back frame known, rest ws s)

-- What is stored reads back.
Stores-Reads :
    (items : List MissionItem) (fs : List MissionItemIntFields) (ws : List WireItem)
    → all is_valid_item items ≡ true
    → All HasExact items
    → fields_of items ≡ some fs
    → Stores fs ws
    → Reads ws items
unfolding fields_of
Stores-Reads [] [] [] v x g s = tt
Stores-Reads [] [] (w ∷ ws) v x g s = absurd s
Stores-Reads [] (f ∷ fs) ws v x g s = absurd (ground arith)
Stores-Reads (item ∷ items) fs ws v (x, xs) g s =
    let (f, sent, back) = stored-item item (ground arith) x in
    let (gs, later, same) = fields_split item items f fs (fields_of items) sent refl g in
    first-Reads f gs item items ws back (λ vs t. Stores-Reads items gs vs (ground arith) xs later t)
      (subst (λ l. Stores l ws) same s)

Reads-length :
    (ws : List WireItem) (items : List MissionItem) → Reads ws items → length ws ≡ length items
Reads-length [] [] r = refl
Reads-length [] (item ∷ items) r = absurd r
Reads-length (w ∷ ws) [] r = absurd r
Reads-length (w ∷ ws) (item ∷ items) (e, r) = ap suc (Reads-length ws items r)

finished :
    (mission : MissionV1)
    → validate_mission mission ≡ true
    → finish_mission mission.items ≡ ended (downloaded mission)
unfolding finish_mission validate_downloaded validate_mission
finished mission v = ground arith

validate_mission-length :
    (mission : MissionV1)
    → validate_mission mission ≡ true
    → (1 ≤ length mission.items)
      × (length mission.items ≤ 100)
      × (all is_valid_item mission.items ≡ true)
unfolding validate_mission
validate_mission-length mission v = (ground arith, ground arith, ground arith)

-- A mission that the schema accepts, with coordinates on the wire's grid, survives the trip. Its
-- items are sent as `fs`; the vehicle stores them, each with a frame that mavctl knows, behind a
-- home slot that is verifiably its home, and answers with the count and the items in order. Then
-- the download returns the mission.
pub download_run-uploaded :
    (mission : MissionV1) (fs : List MissionItemIntFields) (home : Option HomePosition)
    (slot : WireItem) (ws : List WireItem) (overall now after : ℕ)
    → validate_mission mission ≡ true
    → All HasExact mission.items
    → fields_of mission.items ≡ some fs
    → check_home_slot_item home slot ≡ some true
    → Stores fs ws
    → download_run home overall download_begin (honest_events now after (slot ∷ ws))
      ≡ ended (downloaded mission)
unfolding download_run
download_run-uploaded mission fs home slot ws overall now after v x g verified s =
    let (lo, hi, valid) = validate_mission-length mission v in
    let reads : Reads ws mission.items = Stores-Reads mission.items fs ws valid x g s in
    let l : length ws ≡ length mission.items = Reads-length ws mission.items reads in
    let n : ℕ = suc (length ws) in
    ap (λ t. download_run home overall t (item_events now after 0 (slot ∷ ws)))
      (opening_step home overall n now after (omega arith) (omega arith))
    ∙ ap (λ t. download_run home overall t (item_events now after 1 ws))
        (home_step home overall n (length ws) now after slot verified)
    ∙ items_read home overall n 0 now after (keep 0 slot (λ _. none)) (0 ∷ []) [] ws mission.items
        (λ m h. ground arith) reads
    ∙ finished mission v
