-- ===== src/Examples/ClearHistories.antt =====
-- The theorems on clearing and counting, at short exchanges with a vehicle.
use mavctl.Prelude.{◌≡◌, refl, List, [], ◌∷◌}
use mavctl.Adapter.Inbox.{Event, mission_ack, mission_count, silent, received}
use mavctl.Adapter.Count.{
  accept_count_or_ack, accept_any_count_or_ack, first_question, waiting, answered, counted,
  count_run,
}
use mavctl.Adapter.Clear.{clear_begin, clear_run, done, verified}
use mavctl.Adapter.ClearRuns.{Honest, HeardThen, Acknowledges, ReadBack, clear_run-Honest}

-- One time-out, the ACK, a repeated ACK and the count.
abbrev exchange : List Event
exchange =
    silent 0 1000000000
    ∷ received (mission_ack 0 0) 1100000000 1100000000
    ∷ received (mission_ack 0 0) 1200000000 1200000000
    ∷ received (mission_count 0 0) 1300000000 1300000000
    ∷ []

clear_run-Honest_example :
    Honest
      (λ n. HeardThen Acknowledges (ReadBack n) exchange)
      (clear_run 15000000000 clear_begin exchange)
clear_run-Honest_example = clear_run-Honest 15000000000 exchange

exchange_clears : clear_run 15000000000 clear_begin exchange ≡ done 2 verified
unfolding clear_run accept_count_or_ack
exchange_clears = refl

-- The count of another mission type, 1 for geofences, answers the probe and not the read-back.
abbrev fence_count : List Event
fence_count = received (mission_count 7 1) 100 100 ∷ []

probe_takes_fences :
    count_run accept_any_count_or_ack 15000000000 (waiting first_question) fence_count
    ≡ answered first_question (counted 7)
unfolding count_run accept_any_count_or_ack
probe_takes_fences = refl

read_back_waits :
    count_run accept_count_or_ack 15000000000 (waiting first_question) fence_count
    ≡ waiting first_question
unfolding count_run accept_count_or_ack
read_back_waits = refl
