-- ===== src/Models/Command.antt =====
-- The outcome of a vehicle command (src/mavctl/models/commands.py).
use mavctl.Prelude.{ℕ, Bool, true, false, ◌||◌, ◌==◌, Option, none, some}

abbrev pub mav_result_accepted : ℕ
mav_result_accepted = 0

abbrev pub mav_result_in_progress : ℕ
mav_result_in_progress = 5

-- `result_name`: the name of a result code, or one of the texts that the code writes itself.
pub data ResultName : Type 0 where
  unknown timeout_name adapter_error : ResultName
  mav_result : ℕ → ResultName

pub record CommandOutcome : Type 0 where
  pub accepted : Bool
  pub in_progress : Bool
  pub timed_out : Bool
  pub result_code : Option ℕ
  pub result_name : ResultName
  pub attempts : ℕ

-- `CommandOutcome.from_ack`
unfoldable pub from_ack : ℕ → ℕ → CommandOutcome
from_ack result_code attempts = record {
  accepted = result_code == mav_result_accepted || result_code == mav_result_in_progress;
  in_progress = result_code == mav_result_in_progress;
  timed_out = false;
  result_code = some result_code;
  result_name = mav_result result_code;
  attempts = attempts;
}

-- `CommandOutcome.timeout`
unfoldable pub timeout : ℕ → CommandOutcome
timeout attempts = record {
  accepted = false;
  in_progress = false;
  timed_out = true;
  result_code = none;
  result_name = timeout_name;
  attempts = attempts;
}

-- `CommandOutcome(accepted=False, result_name="ADAPTER_ERROR: …")`
unfoldable pub adapter_failure : CommandOutcome
adapter_failure = record {
  accepted = false;
  in_progress = false;
  timed_out = false;
  result_code = none;
  result_name = adapter_error;
  attempts = 0;
}

pub data WaitStatus : Type 0 where
  not_waited reached timed_out link_lost : WaitStatus
