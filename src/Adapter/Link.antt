-- ===== src/Adapter/Link.antt =====
-- The target lock and the store of ACKs of src/mavctl/adapter/pymavlink_adapter.py: the parts of
-- `_on_heartbeat`, `_is_locked_target` and `_on_command_ack` that decide whom to trust.
use mavctl.Prelude.{ℕ, Bool, true, false, not, ◌&&◌, Option, none, some, ltb, ◌==◌, if◌then◌else◌}

-- `_target_system`, `_target_component` and `_target_locked`.
pub record Target : Type 0 where
  pub target_system : ℕ
  pub target_component : ℕ
  pub target_locked : Bool

-- The source of a message.
pub record Sender : Type 0 where
  pub system : ℕ
  pub component : ℕ

-- The placeholders of `__init__`.
unfoldable pub placeholder : Target
placeholder = record { target_system = 1; target_component = 1; target_locked = false }

-- `_is_locked_target`
unfoldable pub is_locked_target : Target → Sender → Bool
is_locked_target target sender =
    if not target.target_locked
    then false
    else sender.system == target.target_system && sender.component == target.target_component

-- The start of `_on_heartbeat`: the target afterwards, and whether the snapshot takes the message.
-- `autopilot` is pymavlink's `MAV_COMP_ID_AUTOPILOT1`.
unfoldable pub heed_heartbeat : ℕ → Sender → Target → Target × Bool
unfolding is_locked_target
heed_heartbeat autopilot sender target =
    if not target.target_locked
    then (if not (sender.component == autopilot) then (target, false) else (
      record {
        target_system = sender.system;
        target_component = sender.component;
        target_locked = true;
      },
      true,
    ))
    else if not (is_locked_target target sender)
    then (target, false)
    else (target, true)

-- `_acks`, with the result and the time of receipt, and `_ack_quarantine_until`.
pub record Acks : Type 0 where
  pub acks : ℕ → Option (ℕ × ℕ)
  pub quarantine_until : ℕ → Option ℕ

-- An assignment to a key of a dictionary, or its removal.
unfoldable pub put {ℓ} : {A : Type ℓ} → (ℕ → Option A) → ℕ → Option A → ℕ → Option A
put entries key entry k = if k == key then entry else entries k

-- `until is not None and now < until`
unfoldable pub is_quarantined : Option ℕ → ℕ → Bool
is_quarantined none now = false
is_quarantined (some until) now = ltb now until

-- `_on_command_ack`; `now` and `stamp` are its two clock readings.
unfoldable pub on_command_ack : Target → Sender → ℕ → ℕ → ℕ → ℕ → Acks → Acks
unfolding is_locked_target put is_quarantined
on_command_ack target sender command result now stamp a =
    if not target.target_locked
    then a
    else if not (is_locked_target target sender)
    then a
    else if is_quarantined (a.quarantine_until command) now
    then a
    else record a { acks = put a.acks command (some (result, stamp)) }
