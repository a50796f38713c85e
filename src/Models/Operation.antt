-- ===== src/Models/Operation.antt =====
-- Operation kinds, states and the external snapshot (src/mavctl/models/operation.py).
use mavctl.Prelude.{Bool, true, false, Option, String, Float}

pub data OperationKind : Type 0 where
  takeoff land rtl mission_start : OperationKind

pub data OperationState : Type 0 where
  pending command_sent accepted waiting reached timed_out link_lost superseded uncertain failed :
      OperationState

-- Membership in `TERMINAL_OPERATION_STATES`.
unfoldable pub is_terminal : OperationState → Bool
is_terminal reached = true
is_terminal timed_out = true
is_terminal link_lost = true
is_terminal superseded = true
is_terminal uncertain = true
is_terminal failed = true
is_terminal _ = false

-- `operation.state is OperationState.WAITING`
unfoldable pub is_waiting : OperationState → Bool
is_waiting waiting = true
is_waiting _ = false

pub record OperationSnapshot : Type 0 where
  pub id : String
  pub kind : OperationKind
  pub state : OperationState
  pub created_age_s : Option Float
  pub effect_sent_age_s : Option Float
  pub ack_age_s : Option Float
  pub superseded_by_operation_id : Option String
  pub terminal_reason : Option String
