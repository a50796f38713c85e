-- ===== src/Server/Vouched.antt =====
-- Every answer of the daemon that tells a success: what the vehicle did, or what it reported.
use mavctl.Prelude.{
  ℕ, ◌≡◌, refl, not, Option, none, some, String, Float, if_cases, option_cases, upper,
}
use mavctl.Models.Command.{CommandOutcome}
use mavctl.Models.Operation.{OperationKind}
use mavctl.Guards.Decision.{Action}
use mavctl.Guards.Commands.{Command, check}
use mavctl.Operations.Registry.{Registry, snapshot}
use mavctl.Server.Interface.{
  Called, returned, raised, crashed, connection_lost, mode_mapping_unavailable,
}
use mavctl.Server.Params.{RpcRequest, flag, wait_timeout, read_altitude, read_mode, parse_mission}
use mavctl.Server.Replies.{not_connected, result_of, invalid_altitude, invalid_timeout}
use mavctl.Server.World.{
  DaemonServer, World, Outside, Goal, altitude_reached, disarmed, mission_running, Handled,
  answered, escaped, started, call_verb, wanted,
}
use mavctl.Server.Flight.{m_arm, m_disarm, m_mode, m_takeoff, m_descent, m_land, m_rtl}
use mavctl.Server.Missions.{
  refused, count_failure, start_counted, m_mission_upload, m_mission_clear, m_mission_download,
  m_mission_start,
}
use mavctl.Server.Dispatch.{
  methods, find_method, contain, dispatch, find_operation, m_ping, m_status, m_telemetry,
  m_shutdown, m_operation_get,
}
use mavctl.Server.Dispatched.{EachRow, end, ◌&◌, Leads, find_method-EachRow, dispatch-Served}
use mavctl.Server.Connection.{answer}
use mavctl.Server.Sent.{Asked}
use mavctl.Server.Accepted.{Starts, Tracks}
use mavctl.Server.Backed.{Ended, Backed, Answers, answer_started-Backed}
use mavctl.Server.Backing.{
  Holds, Ends, decided-Holds, guarded-Holds, report_result-Holds, begin_accepted-Holds,
  finish_mode-Holds, finish_transaction-Holds, finish_download-Holds,
}

module _ {V : Type 0} (self : DaemonServer V) (x : Outside) (q : RpcRequest) (w : World V) where
  abbrev Vouches : Handled × World V → Type 0
  Vouches = Holds self x q w

  arm-Vouches : q.method ≡ "arm" → Vouches (m_arm self x q.params w)
  unfolding m_arm call_verb
  arm-Vouches m =
      if_cases Vouches (flag "force" q.params) (λ _. tt)
        (λ unforced.
          guarded-Holds self x q w Command.arm _ (m, unforced)
            (λ sent. report_result-Holds self x q w Command.arm Action.arm _ _ sent (λ o e. e)))

  disarm-Vouches : q.method ≡ "disarm" → Vouches (m_disarm self x q.params w)
  unfolding m_disarm call_verb
  disarm-Vouches m =
      let c : Command = Command.disarm (flag "force" q.params) in
      guarded-Holds self x q w c _ (m, refl)
        (λ sent. report_result-Holds self x q w c Action.disarm _ _ sent (λ o e. e))

  mode-Vouches : q.method ≡ "mode" → Vouches (m_mode self x q.params w)
  unfolding m_mode call_verb invalid_timeout
  mode-Vouches m =
      let mode : String = upper (read_mode self.py q.params) in
      let c : Command = Command.mode mode (self.adapter.mode_names w.vehicle) in
      option_cases Vouches (wait_timeout q.params) (λ _. tt)
        (λ timeout _.
          guarded-Holds self x q w c _ (m, refl, refl)
            (λ sent.
              finish_mode-Holds self x q w c mode (flag "wait" q.params) _ _ sent (λ o e. e)))

  takeoff-Vouches : q.method ≡ "takeoff" → Vouches (m_takeoff self x q.params w)
  unfolding m_takeoff call_verb invalid_timeout invalid_altitude
  takeoff-Vouches m =
      option_cases Vouches (read_altitude self.py q.params) (λ _. tt)
        (λ altitude read.
          option_cases Vouches (wait_timeout q.params) (λ _. tt)
            (λ timeout _.
              guarded-Holds self x q w (Command.takeoff altitude) _ (m, read)
                (λ sent.
                  begin_accepted-Holds self x q w (Command.takeoff altitude) Action.takeoff
                    OperationKind.takeoff (altitude_reached altitude) (wanted q.params timeout) _ _
                    sent (λ o e. e))))

  descent-Vouches :
      (action : Action) (kind : OperationKind) (c : Command) (verb : V → Called CommandOutcome × V)
      → Asked self q w.vehicle c
      → Ends self x q w c (verb w.vehicle).0
      → Vouches (m_descent self x q.params w action kind c verb)
  unfolding m_descent call_verb invalid_timeout
  descent-Vouches action kind c verb asked ends =
      option_cases Vouches (wait_timeout q.params) (λ _. tt)
        (λ timeout _. guarded-Holds self x q w c _ asked (λ sent.
          begin_accepted-Holds self x q w c action kind disarmed (wanted q.params timeout) _ _ sent
            ends))

  land-Vouches : q.method ≡ "land" → Vouches (m_land self x q.params w)
  unfolding m_land
  land-Vouches m =
      descent-Vouches Action.land OperationKind.land Command.land self.adapter.land m (λ o e. e)

  rtl-Vouches : q.method ≡ "rtl" → Vouches (m_rtl self x q.params w)
  unfolding m_rtl
  rtl-Vouches m =
      descent-Vouches Action.rtl OperationKind.rtl Command.rtl self.adapter.rtl m (λ o e. e)

  mission_upload-Vouches :
      q.method ≡ "mission_upload" → Vouches (m_mission_upload self x q.params w)
  unfolding m_mission_upload call_verb
  mission_upload-Vouches m =
      option_cases Vouches (parse_mission self.py q.params) (λ _. tt)
        (λ mission parsed.
          guarded-Holds self x q w (Command.mission_upload mission) _ (m, parsed)
            (λ sent.
              finish_transaction-Holds self x q w (Command.mission_upload mission) _ _ sent
                (λ o e. e)))

  mission_clear-Vouches : q.method ≡ "mission_clear" → Vouches (m_mission_clear self x q.params w)
  unfolding m_mission_clear call_verb
  mission_clear-Vouches m =
      guarded-Holds self x q w Command.mission_clear _ m
        (λ sent. finish_transaction-Holds self x q w Command.mission_clear _ _ sent (λ o e. e))

  mission_download-Vouches :
      q.method ≡ "mission_download" → Vouches (m_mission_download self x q.params w)
  unfolding m_mission_download call_verb not_connected
  mission_download-Vouches m =
      if_cases Vouches (not (self.adapter.get_state w.vehicle).connected) (λ _. tt)
        (λ up. finish_download-Holds self x q w _ _ m refl)

  -- Behind the probe: refused, or started.
  counted-Vouches :
      (timeout : Float) (counted : Called ℕ)
      → q.method ≡ "mission_start"
      → (self.adapter.get_mission_count w.vehicle).0 ≡ counted
      → Vouches (
          start_counted self x q.params w
            (self.adapter.get_state w.vehicle)
            timeout
            counted
            (record w { vehicle = (self.adapter.get_mission_count w.vehicle).1 }))
  unfolding start_counted refused call_verb count_failure result_of
  counted-Vouches timeout crashed m probe = tt
  counted-Vouches timeout (raised connection_lost) m probe = tt
  counted-Vouches timeout (raised mode_mapping_unavailable) m probe = tt
  counted-Vouches timeout (raised error) m probe = tt
  counted-Vouches timeout (returned count) m probe =
      let c : Command = Command.mission_start count in
      decided-Holds self x q w c _ _ (m, probe)
        (λ sent.
          if_cases Vouches
            (check c (self.adapter.get_state w.vehicle) (flag "confirm" q.params)
              self.guard_config).already_satisfied
            (λ done. (c, (m, probe), done))
            (λ _.
              begin_accepted-Holds self x q w c Action.mission_start OperationKind.mission_start
                mission_running (wanted q.params timeout) _ _ sent (λ o e. e)))

  mission_start-Vouches : q.method ≡ "mission_start" → Vouches (m_mission_start self x q.params w)
  unfolding m_mission_start call_verb invalid_timeout not_connected
  mission_start-Vouches m =
      option_cases Vouches (wait_timeout q.params) (λ _. tt)
        (λ timeout _.
          if_cases Vouches (not (self.adapter.get_state w.vehicle).connected) (λ _. tt)
            (λ up. counted-Vouches timeout _ m refl))

  telemetry-Vouches : q.method ≡ "telemetry" → Vouches (m_telemetry self x q.params w)
  unfolding m_telemetry not_connected
  telemetry-Vouches m =
      if_cases Vouches (not (self.adapter.get_state w.vehicle).connected) (λ _. tt)
        (λ up. (m, refl))

  find_operation-Backed :
      (o : Option String)
      → q.method ≡ "operation_get"
      → Backed self q w.vehicle (find_operation self x q.params w o)
  unfolding find_operation
  find_operation-Backed none m = tt
  find_operation-Backed (some id) m =
      option_cases (Backed self q w.vehicle) (snapshot id x.now w.operations) (λ _. tt)
        (λ found _. m)

module _ {V : Type 0} (self : DaemonServer V) (x : Outside) (w : World V) where
  Vouches-EachRow : EachRow (Leads self x w (λ q result. Answers self q w.vehicle result)) methods
  unfolding methods m_ping m_status m_shutdown m_operation_get
  Vouches-EachRow =
      (λ q m. m)
      & (λ q m. (m, refl))
      & (λ q m. telemetry-Vouches self x q w m)
      & (λ q m. m)
      & (λ q m. find_operation-Backed self x q w _ m)
      & (λ q m. mission_start-Vouches self x q w m)
      & (λ q m. mission_upload-Vouches self x q w m)
      & (λ q m. mission_download-Vouches self x q w m)
      & (λ q m. mission_clear-Vouches self x q w m)
      & (λ q m. arm-Vouches self x q w m)
      & (λ q m. disarm-Vouches self x q w m)
      & (λ q m. mode-Vouches self x q w m)
      & (λ q m. takeoff-Vouches self x q w m)
      & (λ q m. land-Vouches self x q w m)
      & (λ q m. rtl-Vouches self x q w m)
      & end

  contain-Answers :
      (q : RpcRequest) (result : Handled × World V)
      → Answers self q w.vehicle result
      → Answers self q w.vehicle (contain result)
  unfolding contain
  contain-Answers q (answered response, s) h = h
  contain-Answers q (escaped, s) h = tt
  contain-Answers q (started t, s) h = tt

  dispatch-Answers : (q : RpcRequest) → Answers self q w.vehicle (dispatch self x (some q) w)
  unfolding dispatch
  dispatch-Answers q =
      option_cases (Answers self q w.vehicle) (find_method q.method methods) (λ _. tt)
        (λ handler found. contain-Answers q (handler self x q.params w) (
          find_method-EachRow (Leads self x w (λ q result. Answers self q w.vehicle result))
            q.method methods handler Vouches-EachRow found q refl))

  Starts-Ended :
      (c : Command) (v : V) (kind : OperationKind) (goal : Goal) (outcome : CommandOutcome)
      → Starts self.adapter c v kind goal (returned outcome)
      → Ended self.adapter c v outcome
  Starts-Ended (Command.takeoff altitude) v kind goal outcome s = s.2
  Starts-Ended Command.land v kind goal outcome s = s.2
  Starts-Ended Command.rtl v kind goal outcome s = s.2
  Starts-Ended (Command.mission_start count) v kind goal outcome s = s.2
  Starts-Ended _ v kind goal outcome s = absurd s

  answer-Backed :
      (q : RpcRequest) (settled : Registry) (handled : Handled) (s : World V)
      → Answers self q w.vehicle (handled, s)
      → Tracks self x q w (handled, s)
      → Backed self q w.vehicle (answer handled settled)
  unfolding answer
  answer-Backed q settled (answered response) s h tracks = h
  answer-Backed q settled escaped s h tracks = tt
  answer-Backed q settled (started t) s h tracks =
      answer_started-Backed self q w.vehicle tracks.command t settled tracks.sent
        (Starts-Ended tracks.command w.vehicle tracks.kind t.goal t.outcome tracks.answer)

  pub dispatch-Backed :
      (q : RpcRequest) (settled : Registry)
      → Backed self q w.vehicle (answer (dispatch self x (some q) w).0 settled)
  dispatch-Backed q settled =
      answer-Backed q settled _ (dispatch self x (some q) w).1 (dispatch-Answers q)
        (dispatch-Served self x w q).1
