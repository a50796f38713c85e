-- ===== src/Examples/ServerRuns.antt =====
-- The theorems on the server, at a takeoff of a simulated vehicle.
use mavctl.Guards.Flight.{check_takeoff}
use mavctl.Guards.Commands.{check}
use mavctl.Server.Flight.{m_takeoff}
use mavctl.Prelude.{
  ◌≡◌, ◌↔◌, ◌⊎◌, refl, true, false, some, none, metres, thousandths, arith, is_finite, float_le,
  float_lt, is_text, scale,
}
use mavctl.Models.Protocol.{success, vehicle_not_connected, nack_timeout}
use mavctl.Models.State.{blank}
use mavctl.Models.Command.{from_ack}
use mavctl.Models.Operation.{waiting, reached, link_lost, superseded, uncertain}
use mavctl.Guards.Decision.{takeoff}
use mavctl.Operations.Calls.{init}
use mavctl.Operations.Activation.{Fresh}
use mavctl.Operations.Writes.{Watches}
use mavctl.Server.Params.{flag}
use mavctl.Server.Response.{response_code}
use mavctl.Server.Replies.{finish_operation_wait}
use mavctl.Server.World.{World, Poll, altitude_reached, has_reached, meets}
use mavctl.Server.Dispatch.{dispatch}
use mavctl.Server.Observe.{poll_operation, end_observation}
use mavctl.Server.Observed.{
  Records, Evidence, Continues, LastEvidence, Returns, poll_operation-Records,
  end_observation-Records,
}
use mavctl.Server.Sent.{Effect}
use mavctl.Server.Answers.{finish_operation_wait_codes}
use mavctl.Server.Sessions.{Follows, opened, continued, serves, moves, Session-Follows}
use mavctl.Server.Dispatched.{Served, dispatch-Effect, dispatch-Served}
use mavctl.Examples.Snapshots.{ready}
use mavctl.Examples.RegistryRuns.{one, one-IsValid, one_next, one_state, empty-IsValid}
use mavctl.Examples.Daemon.{
  Sim, daemon, exchange, ready_world, takeoff_request, dry_request, silent_poll, sim_adapter,
}

dispatch-Effect_example :
    Effect daemon takeoff_request ready_world.vehicle
      (dispatch daemon exchange (some takeoff_request) ready_world).1.vehicle
dispatch-Effect_example = dispatch-Effect daemon exchange ready_world takeoff_request

dispatch-Served_example :
    Served daemon exchange ready_world takeoff_request
      (dispatch daemon exchange (some takeoff_request) ready_world)
dispatch-Served_example = dispatch-Served daemon exchange ready_world takeoff_request

-- The takeoff is sent.
takeoff_sent : (dispatch daemon exchange (some takeoff_request) ready_world).1.vehicle.commands ≡ 1
unfolding dispatch m_takeoff is_finite check check_takeoff float_le float_lt is_text from_ack
takeoff_sent = refl

is_dry : flag "dry_run" dry_request.params ≡ true
unfolding flag
is_dry = refl

-- The vehicle is silent.
abbrev silent_world : World Sim
silent_world = record ready_world { vehicle = record { state = blank; count = 0; commands = 0 } }

finish_operation_wait_codes_example :
    let code = response_code (finish_operation_wait takeoff (from_ack 0 1) (one.heap 0)) in
    ((code ≡ success) ↔ ((one.heap 0).state ≡ reached))
    × ((code ≡ vehicle_not_connected) ↔ ((one.heap 0).state ≡ link_lost))
    × ((code ≡ nack_timeout) ↔ (
        ((one.heap 0).state ≡ waiting)
        ⊎ ((one.heap 0).state ≡ superseded)
        ⊎ ((one.heap 0).state ≡ uncertain)))
unfolding from_ack
finish_operation_wait_codes_example =
    finish_operation_wait_codes takeoff (from_ack 0 1) one 0 one-IsValid (omega (arith, one_next))
      refl

one-Watches : Watches one 0
one-Watches = record { valid = one-IsValid; known = omega (arith, one_next); waits = one_state }

-- The vehicle at ten metres.
abbrev high_poll : Poll
high_poll = record {
  link = some ready;
  state = some ready;
  telemetry = some (
      sim_adapter.get_telemetry (record {
        state = record ready { relative_alt_m = some (metres 10) };
        count = 0;
        commands = 1;
      }));
}

poll_operation-Records_example :
    Records
      (Evidence (altitude_reached (metres 10)) high_poll)
      Continues
      one
      0
      (poll_operation (altitude_reached (metres 10)) high_poll 0 one)
poll_operation-Records_example =
    poll_operation-Records (altitude_reached (metres 10)) high_poll one 0 one-Watches

end_observation-Records_example :
    Records
      (LastEvidence (altitude_reached (metres 10)) silent_poll none)
      Returns
      one
      0
      (end_observation (altitude_reached (metres 10)) silent_poll none 0 one)
end_observation-Records_example =
    end_observation-Records (altitude_reached (metres 10)) silent_poll none one 0 one-Watches

-- Ten metres are reached at 9.5, and not below.
high_met : meets (altitude_reached (metres 10)) high_poll ≡ some true
unfolding meets scale
high_met = refl

just_met : has_reached (metres 10) (some (thousandths 9500)) ≡ true
unfolding has_reached scale
just_met = refl

not_met : has_reached (metres 10) (some (thousandths 9499)) ≡ false
unfolding has_reached scale
not_met = refl

-- The takeoff, and a disturbance.
abbrev flown : World Sim
flown = (dispatch daemon exchange (some takeoff_request) ready_world).1

ready-Fresh : Fresh exchange.new_id ready_world.operations
unfolding init
ready-Fresh a h = absurd (omega arith)

Session-Follows_example :
    Follows ready_world.operations (record flown { vehicle = ready_world.vehicle }).operations
Session-Follows_example = Session-Follows daemon empty-IsValid (
    continued (continued opened (serves exchange (some takeoff_request) ready-Fresh))
      (moves ready_world.vehicle))
