-- ===== src/Guards/Coherence.antt =====
-- Every guard's answer fits together: its Verdict, reason, exit code and checks.
use mathlib.Core.Path.{subst}
use mavctl.Prelude.{◌≡◌, ◌≢◌, Bool, true, false, none, List, [], ◌∷◌, All, arith}
use mavctl.Models.Protocol.{success}
use mavctl.Models.State.{VehicleState}
use mavctl.Guards.Decision.{GuardConfig, GuardCheck, GuardDecision, pass, reject}
use mavctl.Guards.Ground.{reject_unless_grounded}
use mavctl.Guards.Flight.{
  arm_checks, disarm_checks, mode_checks, takeoff_checks, land_checks, rtl_checks,
}
use mavctl.Guards.Mission.{upload_checks, clear_checks, start_checks}
use mavctl.Guards.Commands.{Command, arm, check, own_checks, gate_checks, check_cases}

-- The last check failed and those before it passed.
abbrev pub OnlyLastFails : List GuardCheck → Type 0
OnlyLastFails [] = ⊥
OnlyLastFails (k ∷ []) = k.passed ≡ false
OnlyLastFails (k ∷ next ∷ rest) = (k.passed ≡ true) × OnlyLastFails (next ∷ rest)

abbrev Verdict : Bool → GuardDecision → Type 0
Verdict true d = (d.reason ≡ none) × (d.exit_code ≡ success) × All (λ k. k.passed ≡ true) d.checks
Verdict false d =
    (d.reason ≢ none)
    × (d.exit_code ≢ success)
    × (d.already_satisfied ≡ false)
    × OnlyLastFails d.checks

-- How the fields of a decision fit together.
abbrev pub IsCoherent : GuardDecision → Type 0
IsCoherent d = Verdict d.allowed d

own_checks-IsCoherent :
    (c : Command) (state : VehicleState) (config : GuardConfig)
    → IsCoherent (own_checks c state config gate_checks)
unfolding own_checks arm_checks disarm_checks mode_checks takeoff_checks land_checks rtl_checks
    upload_checks clear_checks start_checks reject_unless_grounded pass
own_checks-IsCoherent arm state config = ground arith
own_checks-IsCoherent c state config = ground arith

-- The answer of every guard is coherent: either it lets the command go on, with exit code 0, no
-- reason and every check passed, or it stops it, with a reason, another exit code, and exactly
-- the last check failed; and a command that is stopped is never reported as already satisfied.
pub check-IsCoherent :
    (c : Command) (state : VehicleState) (confirmed : Bool) (config : GuardConfig)
    → IsCoherent (check c state confirmed config)
unfolding reject pass
check-IsCoherent c state confirmed config =
    check_cases IsCoherent c state confirmed config (λ _. ground arith) (λ _ _. ground arith)
      (λ _. own_checks-IsCoherent c state config)

-- A guard that stops a command names an error.
pub check-fails :
    (c : Command) (state : VehicleState) (confirmed : Bool) (config : GuardConfig)
    → (check c state confirmed config).allowed ≡ false
    → (check c state confirmed config).exit_code ≢ success
check-fails c state confirmed config stopped =
    let d : GuardDecision = check c state confirmed config in
    let verdict : Verdict false d =
      subst (λ b. Verdict b d) stopped (check-IsCoherent c state confirmed config) in
    verdict.1
