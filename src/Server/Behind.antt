-- ===== src/Server/Behind.antt =====
-- How a handler's guarded part ends: with an answer and nothing changed, or behind a guard that
-- lets the command go on.
use mavctl.Prelude.{◌≡◌, ◌↔◌, refl, Bool, true, false, Option, none, some, not, if_cases, arith}
use mavctl.Guards.Decision.{GuardDecision}
use mavctl.Guards.Commands.{Command, check}
use mavctl.Guards.Needs.{Executes}
use mavctl.Server.Params.{Params, flag}
use mavctl.Server.Response.{DaemonResponse}
use mavctl.Server.Replies.{pre_execute}
use mavctl.Server.World.{DaemonServer, World, Handled, answered, answer_or, guarded}

-- The handler goes on exactly when the guard lets the command be sent and it is no dry run.
pub pre_execute_iff :
    (decision : GuardDecision) (dry_run : Bool)
    → (pre_execute decision dry_run ≡ none) ↔ (Executes decision × (dry_run ≡ false))
unfolding pre_execute
pre_execute_iff decision true = ground arith
pre_execute_iff decision false = ground arith

module _ {V : Type 0} (P : Handled × World V → Type 0) (w : World V) where
  behind :
      (o : Option DaemonResponse) (run : World V → Handled × World V)
      → ((response : DaemonResponse) → P (answered response, w))
      → (o ≡ none → P (run w))
      → P (answer_or o w run)
  unfolding answer_or
  behind none run answers goes = goes refl
  behind (some response) run answers goes = answers response

  -- `_pre_execute` answers and nothing changes, or the command goes on.
  pub answer_or_cases :
      (decision : GuardDecision) (dry_run : Bool) (run : World V → Handled × World V)
      → ((response : DaemonResponse) → P (answered response, w))
      → (Executes decision → dry_run ≡ false → P (run w))
      → P (answer_or (pre_execute decision dry_run) w run)
  answer_or_cases decision dry_run run answers goes =
      behind (pre_execute decision dry_run) run answers (λ h.
        goes ((pre_execute_iff decision dry_run).0 h).0 ((pre_execute_iff decision dry_run).0 h).1)

  -- The same with the link's check before it.
  pub guarded_cases :
      (self : DaemonServer V) (c : Command) (p : Params) (run : World V → Handled × World V)
      → ((response : DaemonResponse) → P (answered response, w))
      → (Executes (check c (self.adapter.get_state w.vehicle) (flag "confirm" p) self.guard_config)
          → flag "dry_run" p ≡ false
          → P (run w))
      → P (guarded self c p w run)
  unfolding guarded
  guarded_cases self c p run answers goes =
      if_cases P (not (self.adapter.get_state w.vehicle).connected) (λ _. answers _)
        (λ _.
          answer_or_cases
            (check c (self.adapter.get_state w.vehicle) (flag "confirm" p) self.guard_config)
            (flag "dry_run" p) run answers goes)
