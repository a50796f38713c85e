-- ===== src/Adapter/VerbFrames.antt =====
-- What the verbs put on the wire, over all retries.
use mathlib.Core.Path.{subst}
use mavctl.Prelude.{
  ℕ, ◌≡◌, ◌≢◌, ◌≤◌, refl, ap, sym, true, false, Option, none, some, List, [], ◌∷◌, map, String,
  Float, length, get_elem?, All, upper, arith,
}
use mavctl.Adapter.Link.{Acks}
use mavctl.Adapter.Exchange.{
  Plan, Phase, settling, awaiting, finished, Exchange, Signal, exchange_begin, exchange_run,
}
use mavctl.Adapter.ExchangeTrust.{upto, Trusts, Acked, exchange_run-Trusted}
use mavctl.Adapter.Verbs.{
  Verb, arm, land, rtl, start_mission, disarm, set_mode, takeoff, Codes, float_of,
  mav_cmd_mission_start, force_arm_magic, mode_command, command_of, padded, frame, frames,
}

-- The id that arms and disarms belongs to no other command.
pub record IsApart (codes : Codes) : Type 0 where
  pub mode_apart : codes.component_arm_disarm ≢ codes.do_set_mode
  pub takeoff_apart : codes.component_arm_disarm ≢ codes.nav_takeoff
  pub land_apart : codes.component_arm_disarm ≢ codes.nav_land
  pub rtl_apart : codes.component_arm_disarm ≢ codes.nav_return_to_launch
  pub start_apart : codes.component_arm_disarm ≢ mav_cmd_mission_start

-- Seven parameters; the motors are armed by `arm` alone, and the number that bypasses the
-- vehicle's checks is sent by a forced disarm alone.
abbrev pub IsHonest : Codes → Verb → ℕ → List Float → Type 0
IsHonest codes verb command params =
    (length params ≡ 7)
    × (command ≡ codes.component_arm_disarm
        → ((get_elem? params 0 ≡ some (float_of 1) → verb ≡ arm)
            × (get_elem? params 1 ≡ some force_arm_magic → verb ≡ disarm true)))

-- `P` of the command and the parameters, if there are any.
abbrev Meant : (ℕ → List Float → Type 0) → Option (ℕ × List Float) → Type 0
Meant P none = Unit {0}
Meant P (some (command, params)) = P command params

mode-IsHonest :
    (codes : Codes) (mode : String) (number : Option ℕ)
    → IsApart codes
    → Meant
        (λ command params. IsHonest codes (set_mode mode) command (padded params))
        (mode_command codes number)
unfolding padded
mode-IsHonest codes mode none h = tt
mode-IsHonest codes mode (some number) h = (refl, λ e. absurd (h.mode_apart (sym e)))

command_of-IsHonest :
    (codes : Codes) (modes : String → Option ℕ) (verb : Verb)
    → IsApart codes
    → Meant
        (λ command params. IsHonest codes verb command (padded params))
        (command_of codes modes verb)
unfolding command_of padded
command_of-IsHonest codes modes arm h = (refl, λ _. (λ _. refl, λ e. cc e))
command_of-IsHonest codes modes (disarm true) h = (refl, λ _. (λ e. cc e, λ _. refl))
command_of-IsHonest codes modes (disarm false) h = (refl, λ _. (λ e. cc e, λ e. cc e))
command_of-IsHonest codes modes (set_mode mode) h = mode-IsHonest codes mode (modes (upper mode)) h
command_of-IsHonest codes modes (takeoff altitude_m) h =
    (refl, λ e. absurd (h.takeoff_apart (sym e)))
command_of-IsHonest codes modes land h = (refl, λ e. absurd (h.land_apart (sym e)))
command_of-IsHonest codes modes rtl h = (refl, λ e. absurd (h.rtl_apart (sym e)))
command_of-IsHonest codes modes start_mission h = (refl, λ e. absurd (h.start_apart (sym e)))

-- The sends of an exchange are numbered from 0 on, at every point of it.
numbered :
    (p : Plan) (Heard : ℕ → ℕ → Type 0) (phase : Phase) (sent : List ℕ) (entry : Option (ℕ × ℕ))
    → Trusts p Heard phase sent entry
    → (k : ℕ) × (k ≤ p.attempts) × (sent ≡ upto k)
numbered p Heard settling sent entry h = (0, omega arith, h)
numbered p Heard (awaiting attempt send_ts) sent entry h = (attempt, h.1, h.0)
numbered p Heard (finished outcome) sent entry h = (outcome.attempts, h.1, h.0)

frames-IsHonest :
    (codes : Codes) (verb : Verb) (p : Plan) (params : List Float) (sent : List ℕ)
    → IsHonest codes verb p.command (padded params)
    → All (λ f. IsHonest codes verb f.command f.params) (map (frame p params) sent)
unfolding frame
frames-IsHonest codes verb p params [] h = tt
frames-IsHonest codes verb p params (n ∷ sent) h = (h, frames-IsHonest codes verb p params sent h)

-- Whatever is heard and however often a verb's command is sent again, its frames differ in the
-- confirmation counter alone, which runs from 0 on and stays below the attempts, and have seven
-- parameters. Provided that no other command has the id that arms and disarms, only `arm` arms the
-- motors, and only a forced disarm has the number that bypasses the vehicle's checks: an arm never
-- does.
pub command_of-frames :
    (codes : Codes) (modes : String → Option ℕ) (verb : Verb) (p : Plan) (params : List Float)
    (store : Acks) (signals : List Signal)
    → IsApart codes
    → command_of codes modes verb ≡ some (p.command, params)
    → let sent = frames p params (exchange_run p (exchange_begin store) signals) in
      ((k : ℕ) × (k ≤ p.attempts) × (sent ≡ map (frame p params) (upto k)))
      × All (λ f. IsHonest codes verb f.command f.params) sent
unfolding frames
command_of-frames codes modes verb p params store signals apart e =
    let x : Exchange = exchange_run p (exchange_begin store) signals in
    let (k, few, counted) =
      numbered p (Acked p signals) x.phase x.sent (x.store.acks p.command)
        (exchange_run-Trusted p store signals) in
    (
      (k, few, ap (map (frame p params)) counted),
      frames-IsHonest codes verb p params x.sent (
          subst (Meant (λ command params. IsHonest codes verb command (padded params))) e
            (command_of-IsHonest codes modes verb apart)),
    )
