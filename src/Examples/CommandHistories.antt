-- ===== src/Examples/CommandHistories.antt =====
-- The theorems on command exchanges and on the target lock, with one vehicle and a stranger.
use mavctl.Prelude.{ℕ, ◌≡◌, ◌≤◌, refl, true, none, some, List, [], ◌∷◌, map, All, arith}
use mavctl.Models.Command.{from_ack}
use mavctl.Adapter.Link.{Sender, Acks, placeholder, is_locked_target}
use mavctl.Adapter.Exchange.{Plan, Signal, ack, check, finished, exchange_begin, exchange_run}
use mavctl.Adapter.Verbs.{arm, Codes, float_of, command_of, frame, frames}
use mavctl.Adapter.VerbFrames.{IsApart, IsHonest, command_of-frames}
use mavctl.Adapter.ExchangeTrust.{upto, Trusted, Acked, exchange_run-Trusted}
use mavctl.Adapter.ExchangeEnds.{meanwhile, passes, enough, IsFinished, exchange_run-IsFinished}
use mavctl.Adapter.LockFinal.{heed_all, heed_all_one}

abbrev vehicle : Sender
vehicle = record { system = 1; component = 1 }

abbrev stranger : Sender
stranger = record { system = 7; component = 1 }

-- Command 400 with two attempts.
abbrev plan : Plan
plan = record {
  target = record { target_system = 1; target_component = 1; target_locked = true };
  command = 400;
  attempts = 2;
  ack_timeout = 100;
  ack_settle = 50;
}

abbrev nothing_stored : Acks
nothing_stored = record { acks = λ _. none; quarantine_until = λ _. none }

-- The first attempt times out over a stranger's ACK; the second is answered.
abbrev answered_late : List Signal
answered_late =
    check 0 1
    ∷ ack stranger 400 0 50 50
    ∷ check 101 102
    ∷ ack vehicle 400 4 110 110
    ∷ check 120 120
    ∷ []

exchange_run-Trusted_example :
    Trusted plan
      (Acked plan answered_late)
      (exchange_run plan (exchange_begin nothing_stored) answered_late)
exchange_run-Trusted_example = exchange_run-Trusted plan nothing_stored answered_late

denied_in_two :
    (exchange_run plan (exchange_begin nothing_stored) answered_late).phase
    ≡ finished (from_ack 4 2)
unfolding exchange_run exchange_begin
denied_in_two = refl

exchange_run-IsFinished_example :
    IsFinished
      (exchange_run plan
        (exchange_begin nothing_stored)
        (check 0 1 ∷ check 101 102 ∷ ack stranger 400 0 150 150 ∷ check 202 203 ∷ [])).phase
exchange_run-IsFinished_example =
    exchange_run-IsFinished plan nothing_stored 0 1
      (check 101 102 ∷ ack stranger 400 0 150 150 ∷ check 202 203 ∷ []) tt
      (passes 101 102 (omega arith)
        (meanwhile stranger 400 0 150 150 (passes 202 203 (omega arith) (enough []))))

heed_all_one_example :
    let (last, taken) = heed_all 1 placeholder (stranger ∷ vehicle ∷ stranger ∷ []) in
    All (λ sender. is_locked_target last sender ≡ true) taken
heed_all_one_example = heed_all_one 1 placeholder (stranger ∷ vehicle ∷ stranger ∷ [])

-- The ids of the command set, and a mapping with one mode.
abbrev codes : Codes
codes = record {
  component_arm_disarm = 400;
  do_set_mode = 176;
  nav_takeoff = 22;
  nav_land = 21;
  nav_return_to_launch = 20;
  custom_mode_enabled = 1;
}

codes-IsApart : IsApart codes
codes-IsApart = record {
  mode_apart = λ e. omega (arith, e);
  takeoff_apart = λ e. omega (arith, e);
  land_apart = λ e. omega (arith, e);
  rtl_apart = λ e. omega (arith, e);
  start_apart = λ e. omega (arith, e);
}

command_of-frames_example :
    let sent =
      frames plan
        (float_of 1 ∷ float_of 0 ∷ [])
        (exchange_run plan (exchange_begin nothing_stored) answered_late) in
    ((k : ℕ) × (k ≤ plan.attempts)
      × (sent ≡ map (frame plan (float_of 1 ∷ float_of 0 ∷ [])) (upto k)))
    × All (λ f. IsHonest codes arm f.command f.params) sent
unfolding command_of
command_of-frames_example =
    command_of-frames codes (λ mode. some 4) arm plan (float_of 1 ∷ float_of 0 ∷ []) nothing_stored
      answered_late codes-IsApart refl
