-- ===== src/Guards/Gates.antt =====
-- What every guard has in common: the two gates and the shape of the answer.
use mavctl.Prelude.{◌≡◌, refl, Bool, true, false, [], ◌∷◌}
use mavctl.Models.Protocol.{vehicle_not_connected, safety_rejected}
use mavctl.Models.State.{VehicleState}
use mavctl.Guards.Decision.{
  GuardConfig, pass, reject, confirm, connected, confirmation_required, not_connected, is_fresh,
}
use mavctl.Guards.Commands.{Command, action_of, check, GatesOpen, GatesOpen-is_fresh, check_cases}

-- The command may go on only behind both gates: it is confirmed, the link is up and the last
-- heartbeat is no older than the configured age.
pub check-GatesOpen :
    (c : Command) (state : VehicleState) (confirmed : Bool) (config : GuardConfig)
    → (check c state confirmed config).allowed ≡ true
    → GatesOpen state confirmed config
unfolding reject
check-GatesOpen c state confirmed config =
    check_cases (λ d. d.allowed ≡ true → GatesOpen state confirmed config) c state confirmed config
      (λ _ h. cc) (λ _ _ h. cc) (λ g _. g)

-- The gates come first and in order: with no confirmation every guard gives the same rejection
-- whatever the state, and with one but no fresh heartbeat it gives exit code 4 and shows the
-- confirmation as passed.
check_gates :
    (c : Command) (state : VehicleState) (config : GuardConfig)
    → (check c state false config
        ≡ reject (action_of c) confirmation_required [] confirm safety_rejected)
      × (is_fresh state config ≡ false
          → check c state true config
            ≡ reject
                (action_of c)
                not_connected
                (pass confirm ∷ [])
                connected
                vehicle_not_connected)
check_gates c state config = (
  check_cases (λ d. d ≡ reject (action_of c) confirmation_required [] confirm safety_rejected) c
      state false config (λ _. refl) (λ h _. cc) (λ g. cc g.agreed),
  λ old.
      check_cases
        (λ d.
          d
          ≡ reject (action_of c) not_connected (pass confirm ∷ []) connected vehicle_not_connected)
        c state true config (λ h. cc) (λ _ _. refl)
        (λ g. cc (GatesOpen-is_fresh state true config g)),
)
