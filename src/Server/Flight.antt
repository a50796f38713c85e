-- ===== src/Server/Flight.antt =====
-- The handlers of the flight commands in src/mavctl/daemon/server.py: the part of each that runs
-- before and under `_command_lock`.
use mavctl.Prelude.{
  Bool, not, Option, none, some, List, [], ◌∷◌, String, if◌then◌else◌, is_text, upper,
}
use mavctl.Models.Protocol.{usage_error, safety_rejected}
use mavctl.Models.Command.{CommandOutcome, WaitStatus, not_waited, reached, timed_out, link_lost}
use mavctl.Models.Operation.{OperationKind}
use mavctl.Guards.Decision.{Action}
use mavctl.Guards.Commands.{Command}
use mavctl.Server.Interface.{Called, returned, raised, crashed, mode_mapping_unavailable}
use mavctl.Server.Params.{Params, flag, wait_timeout, read_altitude, read_mode}
use mavctl.Server.Response.{failure}
use mavctl.Server.Response
use mavctl.Server.Replies.{blocking, command_result, finish_wait, invalid_altitude, invalid_timeout}
use mavctl.Server.World.{
  DaemonServer, World, Poll, Outside, altitude_reached, disarmed, Handled, answered, escaped,
  guarded, call_verb, report_result, begin_accepted, wanted,
}

-- One reading of a poll under the lock: the status it decides, if any; `none` is an exception.
unfoldable pub poll_mode : String → Poll → Option (Option WaitStatus)
unfolding is_text
poll_mode mode poll = elim poll.link [
  | none ↦ none
  | some linked ↦ if not linked.connected then some (some link_lost) else elim poll.state [
    | none ↦ none
    | some state ↦ some (if is_text state.flight_mode mode then some reached else none)
  ]
]

-- The readings after the deadline.
unfoldable pub last_mode : String → Poll → Option WaitStatus
unfolding poll_mode
last_mode mode poll = elim (poll_mode mode poll) [
  | none ↦ none
  | some none ↦ some timed_out
  | some (some status) ↦ some status
]

-- `_maybe_wait` with `--wait` set, for the flight mode.
unfoldable pub wait_mode : String → List Poll → Poll → Option WaitStatus
unfolding poll_mode last_mode
wait_mode mode [] final = last_mode mode final
wait_mode mode (poll ∷ polls) final =
    let rest = wait_mode mode polls final in
    elim (poll_mode mode poll) [ none ↦ none | some none ↦ rest | some (some status) ↦ some status ]

-- `_maybe_wait`
unfoldable pub maybe_wait : Bool → String → List Poll → Poll → Option WaitStatus
unfolding wait_mode
maybe_wait wait mode polls final = if not wait then some not_waited else wait_mode mode polls final

module _ {V : Type 0} where
  -- The end of `_m_mode`, from the outcome on.
  unfoldable pub finish_mode :
      String → Bool → Outside → Called CommandOutcome → World V → Handled × World V
  unfolding blocking command_result maybe_wait finish_wait
  finish_mode mode wait x called w = elim (blocking called) [
    | returned outcome ↦
        if not outcome.accepted
        then (answered (command_result Action.mode outcome none none), w)
        else elim (maybe_wait wait mode x.polls x.final) [
          | none ↦ (escaped, w)
          | some status ↦ (answered (finish_wait Action.mode outcome status), w)
        ]
    | raised mode_mapping_unavailable ↦
        (answered (failure safety_rejected Response.mode_map_unavailable), w)
    | raised _ ↦ (escaped, w)
    | crashed ↦ (escaped, w)
  ]

module _ {V : Type 0} (self : DaemonServer V) (x : Outside) (p : Params) (w : World V) where
  -- `_m_arm`
  unfoldable pub m_arm : Handled × World V
  unfolding flag guarded call_verb report_result
  m_arm =
      if flag "force" p
      then (answered (failure usage_error Response.unsupported_force_arm), w)
      else guarded self Command.arm p w
          (λ w. call_verb self.adapter.arm w (report_result Action.arm))

  -- `_m_disarm`
  unfoldable pub m_disarm : Handled × World V
  unfolding flag guarded call_verb report_result
  m_disarm =
      guarded self (Command.disarm (flag "force" p)) p w
        (λ w. call_verb (self.adapter.disarm (flag "force" p)) w (report_result Action.disarm))

  -- `_m_mode`
  unfoldable pub m_mode : Handled × World V
  unfolding flag wait_timeout read_mode guarded call_verb finish_mode
  m_mode =
      let mode = upper (read_mode self.py p) in
      elim (wait_timeout p) [
        | none ↦ (answered invalid_timeout, w)
        | some timeout ↦
            guarded self (Command.mode mode (self.adapter.mode_names w.vehicle)) p w
              (λ w. call_verb (self.adapter.set_mode mode) w (finish_mode mode (flag "wait" p) x))
      ]

  -- `_m_takeoff`
  unfoldable pub m_takeoff : Handled × World V
  unfolding flag wait_timeout read_altitude guarded call_verb begin_accepted wanted
  m_takeoff = elim (read_altitude self.py p) [
    | none ↦ (answered invalid_altitude, w)
    | some alt ↦ elim (wait_timeout p) [
      | none ↦ (answered invalid_timeout, w)
      | some timeout ↦ guarded self (Command.takeoff alt) p w (λ w.
          call_verb (self.adapter.takeoff alt) w (
            begin_accepted Action.takeoff OperationKind.takeoff (altitude_reached alt)
              (wanted p timeout) x))
    ]
  ]

  -- `_m_descent`, of the guard and the verb for its action
  unfoldable pub m_descent :
      Action → OperationKind → Command → (V → Called CommandOutcome × V) → Handled × World V
  unfolding wait_timeout guarded call_verb begin_accepted wanted
  m_descent action kind command verb = elim (wait_timeout p) [
    | none ↦ (answered invalid_timeout, w)
    | some timeout ↦
        guarded self command p w
          (λ w. call_verb verb w (begin_accepted action kind disarmed (wanted p timeout) x))
  ]

  -- `_m_land`
  unfoldable pub m_land : Handled × World V
  unfolding m_descent
  m_land = m_descent Action.land OperationKind.land Command.land self.adapter.land

  -- `_m_rtl`
  unfoldable pub m_rtl : Handled × World V
  unfolding m_descent
  m_rtl = m_descent Action.rtl OperationKind.rtl Command.rtl self.adapter.rtl
