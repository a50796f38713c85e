-- ===== src/Missions/Sequence.antt =====
-- The shape of an upload that passes validation.
use mathlib.Core.Option
use mavctl.Prelude.{
  ℕ, zero, suc, refl, ◌≡◌, ◌≤◌, ◌<◌, ◌↔◌, true, false, some, List, [], ◌∷◌, length, get_elem?, All,
  all, arith,
}
use mavctl.Models.Mission.{MissionItem, MissionV1}
use mavctl.Missions.Schema.{
  is_valid_item, is_takeoff, is_terminal_item, is_open_ended, check_sequence_rules,
  validate_mission,
}

-- Every item that has a successor is neither a landing nor a return to launch.
abbrev pub EndsOnce : List MissionItem → Type 0
EndsOnce items =
    (i : ℕ) (item : MissionItem)
    → get_elem? items i ≡ some item
    → suc i < length items
    → is_terminal_item item ≡ false

open_ended : (items : List MissionItem) → is_open_ended items ≡ true → EndsOnce items
unfolding is_open_ended
open_ended [] h i item e lt = ground arith
open_ended (first ∷ []) h i item e lt = ground arith
open_ended (first ∷ next ∷ rest) h zero item e lt = ground arith
open_ended (first ∷ next ∷ rest) h (suc i) item e lt =
    open_ended (next ∷ rest) (ground arith) i item e (omega arith)

ends_once : (items : List MissionItem) → EndsOnce items → is_open_ended items ≡ true
unfolding is_open_ended
ends_once [] h = refl
ends_once (first ∷ []) h = refl
ends_once (first ∷ next ∷ rest) h =
    let later : is_open_ended (next ∷ rest) ≡ true =
      ends_once (next ∷ rest) (λ i item e lt. h (suc i) item e (omega arith)) in
    let now : is_terminal_item first ≡ false = h 0 first refl (omega arith) in ground arith

all_iff :
    (items : List MissionItem)
    → (all is_valid_item items ≡ true) ↔ All (λ item. is_valid_item item ≡ true) items
all_iff [] = ground arith
all_iff (item ∷ items) = ground (arith, all_iff items)

-- What `MissionV1` promises of an upload.
pub record IsUpload (mission : MissionV1) : Type 0 where
  pub version_one : mission.version ≡ 1
  pub nonempty : 1 ≤ length mission.items
  pub bounded : length mission.items ≤ 100
  pub each_valid : All (λ item. is_valid_item item ≡ true) mission.items
  pub starts : Option.map is_takeoff (get_elem? mission.items 0) ≡ some true
  pub ends : EndsOnce mission.items

-- The rules on the sequence alone.
sequence_iff :
    (items : List MissionItem)
    → (check_sequence_rules items ≡ true)
      ↔ ((Option.map is_takeoff (get_elem? items 0) ≡ some true) × EndsOnce items)
unfolding check_sequence_rules
sequence_iff [] = ground arith
sequence_iff (first ∷ rest) = ground (arith, open_ended (first ∷ rest), ends_once (first ∷ rest))

-- A mission passes validation exactly when its version is 1, it has 1 to 100 items, each within
-- its schema, the first is a takeoff, and no landing or return to launch has an item after it.
pub validate_mission_iff :
    (mission : MissionV1) → (validate_mission mission ≡ true) ↔ IsUpload mission
unfolding validate_mission
validate_mission_iff mission = ground (arith, all_iff mission.items, sequence_iff mission.items)
