-- ===== src/Adapter/Exchange.antt =====
-- `_send_command` of src/mavctl/adapter/pymavlink_adapter.py with `_wait_ack_quarantine` and
-- `_await_ack`: a command, its retries and its ACK. The reader thread stores ACKs between any two
-- checks that the waiting thread makes. Clock readings are nanoseconds.
use mavctl.Prelude.{ℕ, suc, ◌+◌, Option, none, some, List, [], ◌∷◌, ◌++◌, ltb, leb, if◌then◌else◌}
use mavctl.Models.Command.{CommandOutcome, from_ack, timeout}
use mavctl.Adapter.Link.{Target, Sender, Acks, put, on_command_ack}

-- The arguments of the exchange and the adapter's settings; `attempts` is the number of sends.
pub record Plan : Type 0 where
  pub target : Target
  pub command : ℕ
  pub attempts : ℕ
  pub ack_timeout : ℕ
  pub ack_settle : ℕ

-- Where the thread is: in `_wait_ack_quarantine`, in `_await_ack` for an attempt that was sent at
-- some time, or past the return.
pub data Phase : Type 0 where
  settling : Phase
  awaiting : ℕ → ℕ → Phase
  finished : CommandOutcome → Phase

-- `sent` has the confirmation counters of the sends.
pub record Exchange : Type 0 where
  pub store : Acks
  pub phase : Phase
  pub sent : List ℕ

-- A stored ACK, with its sender, command, result and two clock readings, or a check of the waiting
-- thread, with the reading it makes and the next one.
pub data Signal : Type 0 where
  ack : Sender → ℕ → ℕ → ℕ → ℕ → Signal
  check : ℕ → ℕ → Signal

-- The end of a full time-out: the settle window opens.
unfoldable pub give_up : Plan → Exchange → ℕ → Exchange
unfolding put
give_up p x later = record x {
  store = record {
    acks = put x.store.acks p.command none;
    quarantine_until =
        if ltb 0 p.ack_settle
        then put x.store.quarantine_until p.command (some (later + p.ack_settle))
        else x.store.quarantine_until;
  };
  phase = finished (timeout p.attempts);
}

-- A send with its confirmation counter, `attempt - 1`, which is `done`; or no attempt is left.
unfoldable pub send_attempt : Plan → Exchange → ℕ → ℕ → Exchange
unfolding give_up
send_attempt p x done later =
    if ltb done p.attempts
    then record x { phase = awaiting (suc done) later; sent = x.sent ++ done ∷ [] }
    else give_up p x later

-- The settle window is over: stale entries of the command are dropped.
unfoldable pub start : Plan → Exchange → ℕ → Exchange
unfolding send_attempt put
start p x later =
    send_attempt p
      (record x {
        store = record x.store {
          acks = put x.store.acks p.command none;
          quarantine_until = put x.store.quarantine_until p.command none;
        };
      })
      0 later

-- A turn of `_wait_ack_quarantine`.
unfoldable pub settle_check : Plan → Exchange → Option ℕ → ℕ → ℕ → Exchange
unfolding start
settle_check p x none now later = start p x later
settle_check p x (some until) now later = if leb until now then start p x later else x

-- `entry is not None and entry[1] >= send_ts`
unfoldable pub fresh_result : Option (ℕ × ℕ) → ℕ → Option ℕ
fresh_result none send_ts = none
fresh_result (some (result, stamp)) send_ts = if leb send_ts stamp then some result else none

-- A turn of `_await_ack`, and what `_send_command` does with its result.
unfoldable pub await_check : Plan → Exchange → ℕ → ℕ → Option ℕ → ℕ → ℕ → Exchange
unfolding send_attempt put
await_check p x attempt send_ts (some result) now later = record x {
  store = record x.store { quarantine_until = put x.store.quarantine_until p.command none };
  phase = finished (from_ack result attempt);
}
await_check p x attempt send_ts none now later =
    if leb (send_ts + p.ack_timeout) now then send_attempt p x attempt later else x

unfoldable pub on_check : Plan → Exchange → Phase → ℕ → ℕ → Exchange
unfolding settle_check await_check fresh_result
on_check p x settling now later = settle_check p x (x.store.quarantine_until p.command) now later
on_check p x (awaiting attempt send_ts) now later =
    await_check p x attempt send_ts (fresh_result (x.store.acks p.command) send_ts) now later
on_check p x (finished outcome) now later = x

unfoldable pub exchange_step : Plan → Exchange → Signal → Exchange
unfolding on_check on_command_ack
exchange_step p x (ack sender command result now stamp) = record x {
  store = on_command_ack p.target sender command result now stamp x.store;
}
exchange_step p x (check now later) = on_check p x x.phase now later

-- `_send_command`, once it has the command lock.
unfoldable pub exchange_begin : Acks → Exchange
exchange_begin store = record { store = store; phase = settling; sent = [] }

unfoldable pub exchange_run : Plan → Exchange → List Signal → Exchange
unfolding exchange_step
exchange_run p x [] = x
exchange_run p x (signal ∷ signals) = exchange_run p (exchange_step p x signal) signals
