-- ===== src/Adapter/ExchangeEnds.antt =====
-- A command exchange ends: by an ACK, or once each attempt has had its time.
use mavctl.Prelude.{
  ℕ, suc, ◌+◌, ◌≡◌, ◌≤◌, ◌<◌, refl, sym, ◌⊎◌, inl, inr, true, Option, none, some, List, [], ◌∷◌,
  leb, arith,
}
use mathlib.Core.Path.{subst}
use mavctl.Adapter.Link.{Sender, Acks}
use mavctl.Adapter.Exchange.{
  Plan, Phase, settling, awaiting, finished, Exchange, Signal, ack, check, give_up, send_attempt,
  start, settle_check, fresh_result, await_check, on_check, exchange_step, exchange_begin,
  exchange_run,
}
use mavctl.Adapter.ExchangeTrust.{dropped}

-- Time passes: `n` checks come later than the time-out of the attempt before them, the first of
-- which was sent at `t`; ACKs may come in between.
pub data Late (p : Plan) : ℕ → ℕ → List Signal → Type 0 where
  enough : {t : ℕ} (rest : List Signal) → Late p t 0 rest
  meanwhile :
      {t n : ℕ} {rest : List Signal} (sender : Sender) (command result now stamp : ℕ)
      → Late p t n rest
      → Late p t n (ack sender command result now stamp ∷ rest)
  passes :
      {t n : ℕ} {rest : List Signal} (now later : ℕ)
      → t + p.ack_timeout ≤ now
      → Late p later n rest
      → Late p t (suc n) (check now later ∷ rest)

abbrev pub IsFinished : Phase → Type 0
IsFinished (finished outcome) = Unit {0}
IsFinished _ = ⊥

IsFinished-check :
    (p : Plan) (x : Exchange) (phase : Phase) (now later : ℕ)
    → x.phase ≡ phase
    → IsFinished phase
    → IsFinished (on_check p x phase now later).phase
unfolding on_check
IsFinished-check p x (finished outcome) now later e h = subst IsFinished (sym e) tt
IsFinished-check p x settling now later e h = absurd h
IsFinished-check p x (awaiting attempt send_ts) now later e h = absurd h

IsFinished-step :
    (p : Plan) (x : Exchange) (signal : Signal)
    → IsFinished x.phase
    → IsFinished (exchange_step p x signal).phase
unfolding exchange_step
IsFinished-step p x (ack sender command result now stamp) h = h
IsFinished-step p x (check now later) h = IsFinished-check p x x.phase now later refl h

IsFinished-run :
    (p : Plan) (x : Exchange) (signals : List Signal)
    → IsFinished x.phase
    → IsFinished (exchange_run p x signals).phase
unfolding exchange_run
IsFinished-run p x [] h = h
IsFinished-run p x (signal ∷ signals) h =
    IsFinished-run p (exchange_step p x signal) signals (IsFinished-step p x signal h)

-- A late check finishes the exchange or makes the next attempt.
abbrev Advances : Plan → ℕ → ℕ → Phase → Type 0
Advances p attempt later phase =
    IsFinished phase ⊎ ((attempt < p.attempts) × (phase ≡ awaiting (suc attempt) later))

send-Advances :
    (p : Plan) (x : Exchange) (attempt later : ℕ)
    → Advances p attempt later (send_attempt p x attempt later).phase
unfolding send_attempt give_up
send-Advances p x attempt later = ground arith

await-Advances :
    (p : Plan) (x : Exchange) (attempt t now later : ℕ) (result : Option ℕ)
    → t + p.ack_timeout ≤ now
    → Advances p attempt later (await_check p x attempt t result now later).phase
unfolding await_check
await-Advances p x attempt t now later (some result) h = inl tt
await-Advances p x attempt t now later none h = ground (arith, send-Advances p x attempt later)

-- One late check in an attempt.
check-Advances :
    (p : Plan) (x : Exchange) (attempt t now later : ℕ)
    → x.phase ≡ awaiting attempt t
    → t + p.ack_timeout ≤ now
    → Advances p attempt later (exchange_step p x (check now later)).phase
unfolding exchange_step on_check
check-Advances p x attempt t now later e h =
    subst (λ phase. Advances p attempt later (on_check p x phase now later).phase) (sym e)
      (await-Advances p x attempt t now later (fresh_result (x.store.acks p.command) t) h)

awaiting_ends :
    (p : Plan) (x : Exchange) (attempt t n : ℕ) (signals : List Signal)
    → x.phase ≡ awaiting attempt t
    → attempt ≤ p.attempts
    → attempt + n ≡ suc p.attempts
    → Late p t n signals
    → IsFinished (exchange_run p x signals).phase
unfolding exchange_run
awaiting_ends p x attempt t n signals e le total (enough rest) = absurd (omega arith)
awaiting_ends p x attempt t n (signal ∷ rest) e le total
      (meanwhile sender command result now stamp c) =
    awaiting_ends p (exchange_step p x signal) attempt t n rest e le total c
awaiting_ends p x attempt t (suc n) (signal ∷ rest) e le total (passes now later h c) =
    elim (check-Advances p x attempt t now later e h) [
      | inl over ↦ IsFinished-run p (exchange_step p x signal) rest over
      | inr (more, next) ↦
          awaiting_ends p (exchange_step p x signal) (suc attempt) later n rest next (omega arith)
            (omega arith) c
    ]

-- The settle window of the command is over at `now`.
abbrev pub IsSettled : Option ℕ → ℕ → Type 0
IsSettled none now = Unit {0}
IsSettled (some until) now = until ≤ now

settled : (until now : ℕ) → until ≤ now → leb until now ≡ true
settled until now h = ground arith

first-Advances :
    (p : Plan) (x : Exchange) (until : Option ℕ) (now later : ℕ)
    → IsSettled until now
    → Advances p 0 later (settle_check p x until now later).phase
unfolding settle_check start
first-Advances p x none now later h = send-Advances p (dropped p x) 0 later
first-Advances p x (some until) now later h =
    rw (settled until now h, settle_check) (send-Advances p (dropped p x) 0 later)

-- A command returns: once the settle window of an earlier time-out is over and each attempt has
-- had its time, the exchange is finished, whatever ACKs were stored meanwhile.
pub exchange_run-IsFinished :
    (p : Plan) (store : Acks) (now later : ℕ) (signals : List Signal)
    → IsSettled (store.quarantine_until p.command) now
    → Late p later p.attempts signals
    → IsFinished (exchange_run p (exchange_begin store) (check now later ∷ signals)).phase
unfolding exchange_run exchange_step on_check exchange_begin
exchange_run-IsFinished p store now later signals h c =
    elim (first-Advances p (exchange_begin store) (store.quarantine_until p.command) now later h) [
      | inl over ↦
          IsFinished-run p (exchange_step p (exchange_begin store) (check now later)) signals over
      | inr (more, next) ↦
          awaiting_ends p (exchange_step p (exchange_begin store) (check now later)) 1 later
            p.attempts signals next (omega arith) (omega arith) c
    ]
