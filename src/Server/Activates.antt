-- ===== src/Server/Activates.antt =====
-- The registry behind each handler: unchanged by an answer, and with one new operation when the
-- vehicle accepted a command.
use mavctl.Prelude.{
  ℕ, ◌≡◌, refl, not, Bool, Option, none, some, String, Float, if_cases, option_cases, upper,
}
use mavctl.Models.Command.{CommandOutcome}
use mavctl.Models.Operation.{OperationKind}
use mavctl.Guards.Decision.{Action}
use mavctl.Guards.Commands.{Command, check}
use mavctl.Server.Interface.{
  Called, returned, raised, crashed, connection_lost, mode_mapping_unavailable,
}
use mavctl.Server.Params.{RpcRequest, flag, wait_timeout, read_altitude, read_mode, parse_mission}
use mavctl.Server.Response.{DaemonResponse}
use mavctl.Server.World.{
  DaemonServer, World, Outside, Goal, altitude_reached, disarmed, mission_running, Handled,
  answered, escaped, guarded, call_verb, report_result, begin_operation, begin_accepted, wanted,
}
use mavctl.Server.Flight.{
  maybe_wait, finish_mode, m_arm, m_disarm, m_mode, m_takeoff, m_descent, m_land, m_rtl,
}
use mavctl.Server.Missions.{
  refused, transaction_failure, download_failure, count_failure, finish_transaction,
  finish_download, start_counted, m_mission_upload, m_mission_clear, m_mission_download,
  m_mission_start,
}
use mavctl.Server.Sent.{Asked}
use mavctl.Server.Behind.{answer_or_cases, guarded_cases}
use mavctl.Server.Effects.{Executes-Sent}
use mavctl.Server.Accepted.{Starts, Tracks, Silent, report_result-Silent, begin_accepted_cases}

module _ {V : Type 0} where
  finish_mode-Silent :
      (mode : String) (wait : Bool) (x : Outside) → Silent {V = V} (finish_mode mode wait x)
  unfolding finish_mode
  finish_mode-Silent mode wait x P (returned outcome) w answers escapes =
      if_cases P (not outcome.accepted) (λ _. answers _)
        (λ _.
          option_cases P (maybe_wait wait mode x.polls x.final) (λ _. escapes) (λ _ _. answers _))
  finish_mode-Silent mode wait x P (raised mode_mapping_unavailable) w answers escapes = answers _
  finish_mode-Silent mode wait x P (raised connection_lost) w answers escapes = answers _
  finish_mode-Silent mode wait x P (raised error) w answers escapes = escapes
  finish_mode-Silent mode wait x P crashed w answers escapes = escapes

  refused_cases :
      (P : Handled × World V → Type 0) (o : Option DaemonResponse) (w : World V)
      → ((response : DaemonResponse) → P (answered response, w))
      → P (escaped, w)
      → P (refused o w)
  unfolding refused
  refused_cases P none w answers escapes = escapes
  refused_cases P (some response) w answers escapes = answers response

  finish_transaction-Silent : Silent {V = V} finish_transaction
  unfolding finish_transaction
  finish_transaction-Silent P (returned outcome) w answers escapes = answers _
  finish_transaction-Silent P (raised error) w answers escapes =
      refused_cases P (transaction_failure error) w answers escapes
  finish_transaction-Silent P crashed w answers escapes = escapes

  finish_download-Silent : Silent {V = V} finish_download
  unfolding finish_download
  finish_download-Silent P (returned outcome) w answers escapes = answers _
  finish_download-Silent P (raised error) w answers escapes =
      refused_cases P (download_failure error) w answers escapes
  finish_download-Silent P crashed w answers escapes = escapes

module _ {V : Type 0} (self : DaemonServer V) (x : Outside) (q : RpcRequest) (w : World V) where
  abbrev Tracked : Handled × World V → Type 0
  Tracked result = Tracks self x q w result

  Silent-Tracked :
      {A : Type 0} (c : Command) (verb : V → Called A × V)
      (next : Called A → World V → Handled × World V)
      → Silent next
      → Tracked (guarded self c q.params w (λ w. call_verb verb w next))
  unfolding call_verb
  Silent-Tracked c verb next silent =
      guarded_cases Tracked w self c q.params (λ w. call_verb verb w next) (λ _. refl)
        (λ _ _. silent Tracked _ _ (λ _. refl) refl)

  -- The vehicle's acceptance is what starts the operation.
  begun-Tracked :
      (action : Action) (kind : OperationKind) (goal : Goal) (wait : Option Float) (c : Command)
      (verb : V → Called CommandOutcome × V)
      → Asked self q w.vehicle c
      → ((called : Called CommandOutcome)
          → (verb w.vehicle).0 ≡ called
          → Starts self.adapter c w.vehicle kind goal called)
      → Tracked (
          guarded self c q.params w
            (λ w. call_verb verb w (begin_accepted action kind goal wait x)))
  unfolding call_verb begin_operation
  begun-Tracked action kind goal wait c verb asked starts =
      guarded_cases Tracked w self c q.params
        (λ w. call_verb verb w (begin_accepted action kind goal wait x)) (λ _. refl)
        (λ e dry.
          begin_accepted_cases Tracked action kind goal wait x (verb w.vehicle).0
            (record w { vehicle = (verb w.vehicle).1 }) (λ _. refl) refl
            (λ outcome ended accepted. record {
              command = c;
              kind = kind;
              sent = Executes-Sent self x q w c asked e dry;
              answer = starts (returned outcome) ended;
              accepted = accepted;
              registered = refl;
            }))

  pub arm-Tracked : Tracked (m_arm self x q.params w)
  unfolding m_arm
  arm-Tracked =
      if_cases Tracked (flag "force" q.params) (λ _. refl)
        (λ _.
          Silent-Tracked Command.arm self.adapter.arm (report_result Action.arm)
            (report_result-Silent Action.arm))

  pub disarm-Tracked : Tracked (m_disarm self x q.params w)
  unfolding m_disarm
  disarm-Tracked =
      Silent-Tracked (Command.disarm (flag "force" q.params))
        (self.adapter.disarm (flag "force" q.params)) (report_result Action.disarm)
        (report_result-Silent Action.disarm)

  pub mode-Tracked : Tracked (m_mode self x q.params w)
  unfolding m_mode
  mode-Tracked =
      let mode : String = upper (read_mode self.py q.params) in
      option_cases Tracked (wait_timeout q.params) (λ _. refl)
        (λ timeout _.
          Silent-Tracked (Command.mode mode (self.adapter.mode_names w.vehicle))
            (self.adapter.set_mode mode) (finish_mode mode (flag "wait" q.params) x)
            (finish_mode-Silent mode (flag "wait" q.params) x))

  pub takeoff-Tracked : q.method ≡ "takeoff" → Tracked (m_takeoff self x q.params w)
  unfolding m_takeoff
  takeoff-Tracked m =
      option_cases Tracked (read_altitude self.py q.params) (λ _. refl)
        (λ altitude read.
          option_cases Tracked (wait_timeout q.params) (λ _. refl)
            (λ timeout _.
              begun-Tracked Action.takeoff OperationKind.takeoff (altitude_reached altitude)
                (wanted q.params timeout) (Command.takeoff altitude) (self.adapter.takeoff altitude)
                (m, read) (λ called ended. (refl, refl, ended))))

  pub land-Tracked : q.method ≡ "land" → Tracked (m_land self x q.params w)
  unfolding m_land m_descent
  land-Tracked m =
      option_cases Tracked (wait_timeout q.params) (λ _. refl)
        (λ timeout _.
          begun-Tracked Action.land OperationKind.land disarmed (wanted q.params timeout)
            Command.land self.adapter.land m (λ called ended. (refl, refl, ended)))

  pub rtl-Tracked : q.method ≡ "rtl" → Tracked (m_rtl self x q.params w)
  unfolding m_rtl m_descent
  rtl-Tracked m =
      option_cases Tracked (wait_timeout q.params) (λ _. refl)
        (λ timeout _.
          begun-Tracked Action.rtl OperationKind.rtl disarmed (wanted q.params timeout) Command.rtl
            self.adapter.rtl m (λ called ended. (refl, refl, ended)))

  pub mission_upload-Tracked : Tracked (m_mission_upload self x q.params w)
  unfolding m_mission_upload
  mission_upload-Tracked =
      option_cases Tracked (parse_mission self.py q.params) (λ _. refl)
        (λ mission _.
          Silent-Tracked (Command.mission_upload mission) (self.adapter.upload_mission mission)
            finish_transaction finish_transaction-Silent)

  pub mission_clear-Tracked : Tracked (m_mission_clear self x q.params w)
  unfolding m_mission_clear
  mission_clear-Tracked =
      Silent-Tracked Command.mission_clear self.adapter.clear_mission finish_transaction
        finish_transaction-Silent

  pub mission_download-Tracked : Tracked (m_mission_download self x q.params w)
  unfolding m_mission_download call_verb
  mission_download-Tracked =
      if_cases Tracked (not (self.adapter.get_state w.vehicle).connected) (λ _. refl)
        (λ _. finish_download-Silent Tracked _ _ (λ _. refl) refl)

  counted-Tracked :
      (timeout : Float) (counted : Called ℕ)
      → q.method ≡ "mission_start"
      → (self.adapter.get_mission_count w.vehicle).0 ≡ counted
      → Tracked (
          start_counted self x q.params w
            (self.adapter.get_state w.vehicle)
            timeout
            counted
            (record w { vehicle = (self.adapter.get_mission_count w.vehicle).1 }))
  unfolding start_counted call_verb begin_operation
  counted-Tracked timeout crashed m probe = refl
  counted-Tracked timeout (raised error) m probe =
      refused_cases Tracked (count_failure error) _ (λ _. refl) refl
  counted-Tracked timeout (returned count) m probe =
      let probed : World V = record w { vehicle = (self.adapter.get_mission_count w.vehicle).1 } in
      let decision =
        check (Command.mission_start count) (self.adapter.get_state w.vehicle)
          (flag "confirm" q.params) self.guard_config in
      answer_or_cases Tracked probed decision (flag "dry_run" q.params) _ (λ _. refl)
        (λ e dry.
          if_cases Tracked decision.already_satisfied (λ _. refl)
            (λ _.
              begin_accepted_cases Tracked Action.mission_start OperationKind.mission_start
                mission_running (wanted q.params timeout) x
                (self.adapter.start_mission probed.vehicle).0
                (record probed { vehicle = (self.adapter.start_mission probed.vehicle).1 })
                (λ _. refl) refl
                (λ outcome ended accepted. record {
                  command = Command.mission_start count;
                  kind = OperationKind.mission_start;
                  sent = Executes-Sent self x q w (Command.mission_start count) (m, probe) e dry;
                  answer = (refl, refl, ended);
                  accepted = accepted;
                  registered = refl;
                })))

  pub mission_start-Tracked :
      q.method ≡ "mission_start" → Tracked (m_mission_start self x q.params w)
  unfolding m_mission_start call_verb
  mission_start-Tracked m =
      option_cases Tracked (wait_timeout q.params) (λ _. refl)
        (λ timeout _.
          if_cases Tracked (not (self.adapter.get_state w.vehicle).connected) (λ _. refl)
            (λ _. counted-Tracked timeout _ m refl))
