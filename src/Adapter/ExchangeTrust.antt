-- ===== src/Adapter/ExchangeTrust.antt =====
-- What the outcome of a command rests on: an ACK of the locked vehicle for this command, received
-- after a send.
use mathlib.Core.Path.{subst}
use mavctl.Prelude.{
  ℕ, zero, suc, ◌+◌, ◌≡◌, ◌≤◌, refl, ap, sym, ◌∙◌, ◌⊎◌, inl, inr, true, Option, none, some, List,
  [], ◌∷◌, ◌++◌, ltb, leb, Bool-cases, All, arith,
}
use mavctl.Models.Command.{CommandOutcome, from_ack, timeout}
use mavctl.Adapter.Link.{Target, Sender, Acks, put, is_locked_target, on_command_ack}
use mavctl.Adapter.Exchange.{
  Plan, Phase, settling, awaiting, finished, Exchange, Signal, ack, check, give_up, send_attempt,
  start, settle_check, fresh_result, await_check, on_check, exchange_step, exchange_begin,
  exchange_run,
}

-- The numbers below `n`, in order.
abbrev pub upto : ℕ → List ℕ
upto zero = []
upto (suc n) = upto n ++ n ∷ []

-- What is known of the stored ACK of the command: `Heard` holds of its result and time.
abbrev pub IsKnown : (ℕ → ℕ → Type 0) → Option (ℕ × ℕ) → Type 0
IsKnown Heard none = Unit {0}
IsKnown Heard (some (result, stamp)) = Heard result stamp

-- An outcome after `k` sends: a time-out with all attempts used, or the result of an ACK that was
-- heard.
abbrev pub IsEarned : Plan → (ℕ → ℕ → Type 0) → List ℕ → CommandOutcome → Type 0
IsEarned p Heard sent outcome =
    (sent ≡ upto outcome.attempts)
    × (outcome.attempts ≤ p.attempts)
    × ((outcome ≡ timeout p.attempts)
        ⊎ ((result stamp : ℕ) × (outcome ≡ from_ack result outcome.attempts) × Heard result stamp))

-- What holds in each phase.
abbrev pub Trusts : Plan → (ℕ → ℕ → Type 0) → Phase → List ℕ → Option (ℕ × ℕ) → Type 0
Trusts p Heard settling sent entry = sent ≡ []
Trusts p Heard (awaiting attempt send_ts) sent entry =
    (sent ≡ upto attempt) × (attempt ≤ p.attempts) × IsKnown Heard entry
Trusts p Heard (finished outcome) sent entry = IsEarned p Heard sent outcome

abbrev pub Trusted : Plan → (ℕ → ℕ → Type 0) → Exchange → Type 0
Trusted p Heard x = Trusts p Heard x.phase x.sent (x.store.acks p.command)

-- An ACK of the command from the locked vehicle satisfies `Heard`.
abbrev pub Covers : Plan → (ℕ → ℕ → Type 0) → Signal → Type 0
Covers p Heard (ack sender command result now stamp) =
    is_locked_target p.target sender ≡ true → command ≡ p.command → Heard result stamp
Covers p Heard (check now later) = Unit {0}

give_up-Trusted :
    (p : Plan) (Heard : ℕ → ℕ → Type 0) (x : Exchange) (later : ℕ)
    → x.sent ≡ upto p.attempts
    → Trusted p Heard (give_up p x later)
unfolding give_up timeout
give_up-Trusted p Heard x later e = (e, omega arith, inl refl)

put-none : (entries : ℕ → Option (ℕ × ℕ)) (key : ℕ) → put entries key none key ≡ none
unfolding put
put-none entries key = ground arith

send-Trusted :
    (p : Plan) (Heard : ℕ → ℕ → Type 0) (x : Exchange) (done later : ℕ)
    → x.sent ≡ upto done
    → done ≤ p.attempts
    → IsKnown Heard (x.store.acks p.command)
    → Trusted p Heard (send_attempt p x done later)
unfolding send_attempt
send-Trusted p Heard x done later e h k = elim (Bool-cases (ltb done p.attempts)) [
  | inl more ↦ rw (more, send_attempt) (ap (λ xs. xs ++ done ∷ []) e, ground arith, k)
  | inr last ↦
      rw (last, send_attempt)
        (give_up-Trusted p Heard x later (e ∙ ap upto {x = done} {y = p.attempts} (ground arith)))
]

-- The exchange once the stale entries of the command are dropped.
abbrev pub dropped : Plan → Exchange → Exchange
dropped p x = record x {
  store = record x.store {
    acks = put x.store.acks p.command none;
    quarantine_until = put x.store.quarantine_until p.command none;
  };
}

start-Trusted :
    (p : Plan) (Heard : ℕ → ℕ → Type 0) (x : Exchange) (later : ℕ)
    → x.sent ≡ []
    → Trusted p Heard (start p x later)
unfolding start
start-Trusted p Heard x later e =
    send-Trusted p Heard (dropped p x) 0 later e (omega arith)
      (rw (put-none x.store.acks p.command) tt)

settle-Trusted :
    (p : Plan) (Heard : ℕ → ℕ → Type 0) (x : Exchange) (until : Option ℕ) (now later : ℕ)
    → x.phase ≡ settling
    → x.sent ≡ []
    → Trusted p Heard (settle_check p x until now later)
unfolding settle_check
settle-Trusted p Heard x none now later h e = start-Trusted p Heard x later e
settle-Trusted p Heard x (some until) now later h e = elim (Bool-cases (leb until now)) [
  | inl over ↦ rw (over, settle_check) (start-Trusted p Heard x later e)
  | inr early ↦ rw (early, settle_check, h) e
]

-- An exchange that awaits the ACK of an attempt.
record Awaits (p : Plan) (Heard : ℕ → ℕ → Type 0) (x : Exchange) (attempt send_ts : ℕ)
    : Type 0 where
  here : x.phase ≡ awaiting attempt send_ts
  sends : x.sent ≡ upto attempt
  within : attempt ≤ p.attempts
  known : IsKnown Heard (x.store.acks p.command)

silent-Trusted :
    (p : Plan) (Heard : ℕ → ℕ → Type 0) (x : Exchange) (attempt send_ts now later : ℕ)
    → Awaits p Heard x attempt send_ts
    → Trusted p Heard (await_check p x attempt send_ts none now later)
unfolding await_check
silent-Trusted p Heard x attempt send_ts now later a =
    elim (Bool-cases (leb (send_ts + p.ack_timeout) now)) [
      | inl late ↦
          rw (late, await_check) (send-Trusted p Heard x attempt later a.sends a.within a.known)
      | inr early ↦ rw (early, await_check, a.here) (a.sends, a.within, a.known)
    ]

await-Trusted :
    (p : Plan) (Heard : ℕ → ℕ → Type 0) (x : Exchange) (attempt send_ts now later : ℕ)
    (entry : Option (ℕ × ℕ))
    → Awaits p Heard x attempt send_ts
    → IsKnown Heard entry
    → Trusted p Heard (await_check p x attempt send_ts (fresh_result entry send_ts) now later)
unfolding fresh_result await_check from_ack
await-Trusted p Heard x attempt send_ts now later none a k =
    silent-Trusted p Heard x attempt send_ts now later a
await-Trusted p Heard x attempt send_ts now later (some (result, stamp)) a k =
    elim (Bool-cases (leb send_ts stamp)) [
      | inl recent ↦ rw (recent, fresh_result) (a.sends, a.within, inr (result, stamp, refl, k))
      | inr old ↦ rw (old, fresh_result) (silent-Trusted p Heard x attempt send_ts now later a)
    ]

check-Trusted :
    (p : Plan) (Heard : ℕ → ℕ → Type 0) (x : Exchange) (phase : Phase) (now later : ℕ)
    → x.phase ≡ phase
    → Trusts p Heard phase x.sent (x.store.acks p.command)
    → Trusted p Heard (on_check p x phase now later)
unfolding on_check
check-Trusted p Heard x settling now later h t =
    settle-Trusted p Heard x (x.store.quarantine_until p.command) now later h t
check-Trusted p Heard x (awaiting attempt send_ts) now later h (sends, within, known) =
    await-Trusted p Heard x attempt send_ts now later (x.store.acks p.command)
      (record { here = h; sends = sends; within = within; known = known }) known
check-Trusted p Heard x (finished outcome) now later h t = rw h t

-- An ACK is dropped, or it is from the locked vehicle and becomes the entry of its command.
stored_cases :
    (target : Target) (key : ℕ) (a : Acks) (sender : Sender) (command result now stamp : ℕ)
    → ((on_command_ack target sender command result now stamp a).acks key ≡ a.acks key)
      ⊎ ((is_locked_target target sender ≡ true)
          × (command ≡ key)
          × ((on_command_ack target sender command result now stamp a).acks key
              ≡ some (result, stamp)))
unfolding on_command_ack put
stored_cases target key a sender command result now stamp = ground arith

-- The store knows no more than it heard.
stored :
    (p : Plan) (Heard : ℕ → ℕ → Type 0) (a : Acks) (sender : Sender) (command result now stamp : ℕ)
    → Covers p Heard (ack sender command result now stamp)
    → IsKnown Heard (a.acks p.command)
    → IsKnown Heard ((on_command_ack p.target sender command result now stamp a).acks p.command)
stored p Heard a sender command result now stamp c k =
    elim (stored_cases p.target p.command a sender command result now stamp) [
      | inl same ↦ subst (IsKnown Heard) (sym same) k
      | inr (locked, named, new) ↦ subst (IsKnown Heard) (sym new) (c locked named)
    ]

ack-Trusted :
    (p : Plan) (Heard : ℕ → ℕ → Type 0) (phase : Phase) (sent : List ℕ) (old new : Option (ℕ × ℕ))
    → (IsKnown Heard old → IsKnown Heard new)
    → Trusts p Heard phase sent old
    → Trusts p Heard phase sent new
ack-Trusted p Heard settling sent old new f t = t
ack-Trusted p Heard (awaiting attempt send_ts) sent old new f (sends, within, known) =
    (sends, within, f known)
ack-Trusted p Heard (finished outcome) sent old new f t = t

step-Trusted :
    (p : Plan) (Heard : ℕ → ℕ → Type 0) (x : Exchange) (signal : Signal)
    → Covers p Heard signal
    → Trusted p Heard x
    → Trusted p Heard (exchange_step p x signal)
unfolding exchange_step
step-Trusted p Heard x (ack sender command result now stamp) c t =
    ack-Trusted p Heard x.phase x.sent (x.store.acks p.command) _
      (stored p Heard x.store sender command result now stamp c) t
step-Trusted p Heard x (check now later) c t = check-Trusted p Heard x x.phase now later refl t

run-Trusted :
    (p : Plan) (Heard : ℕ → ℕ → Type 0) (x : Exchange) (signals : List Signal)
    → All (Covers p Heard) signals
    → Trusted p Heard x
    → Trusted p Heard (exchange_run p x signals)
unfolding exchange_run
run-Trusted p Heard x [] c t = t
run-Trusted p Heard x (signal ∷ signals) c t =
    run-Trusted p Heard (exchange_step p x signal) signals c.1 (step-Trusted p Heard x signal c.0 t)

-- Among the signals is an ACK of the command from the locked vehicle with this result and time.
abbrev pub Acked : Plan → List Signal → ℕ → ℕ → Type 0
Acked p [] r t = ⊥
Acked p (ack sender command result now stamp ∷ signals) r t =
    ((is_locked_target p.target sender ≡ true) × (command ≡ p.command) × (result ≡ r) × (stamp ≡ t))
    ⊎ Acked p signals r t
Acked p (check now later ∷ signals) r t = Acked p signals r t

Covers-map :
    (p : Plan) (P Q : ℕ → ℕ → Type 0) (signals : List Signal)
    → ((r t : ℕ) → P r t → Q r t)
    → All (Covers p P) signals
    → All (Covers p Q) signals
Covers-map p P Q [] f c = tt
Covers-map p P Q (ack sender command result now stamp ∷ signals) f c =
    (λ locked named. f result stamp (c.0 locked named), Covers-map p P Q signals f c.1)
Covers-map p P Q (check now later ∷ signals) f c = (tt, Covers-map p P Q signals f c.1)

All-Covers : (p : Plan) (signals : List Signal) → All (Covers p (Acked p signals)) signals
All-Covers p [] = tt
All-Covers p (ack sender command result now stamp ∷ signals) = (
  λ locked named. inl (locked, named, refl, refl),
  Covers-map p (Acked p signals) (Acked p (ack sender command result now stamp ∷ signals)) signals
      (λ r t. inr) (All-Covers p signals),
)
All-Covers p (check now later ∷ signals) = (tt, All-Covers p signals)

-- A command's outcome is the vehicle's own. The sends carry the confirmation counters 0, 1, … and
-- are never more than the attempts; a time-out is reported only with all of them used; and any
-- other outcome has the result of an ACK for this command from the locked vehicle that came in
-- during the exchange.
pub exchange_run-Trusted :
    (p : Plan) (store : Acks) (signals : List Signal)
    → Trusted p (Acked p signals) (exchange_run p (exchange_begin store) signals)
unfolding exchange_begin
exchange_run-Trusted p store signals =
    run-Trusted p (Acked p signals) (exchange_begin store) signals (All-Covers p signals) refl
