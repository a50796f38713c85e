-- ===== src/Server/Backing.antt =====
-- What stands behind the answers of each handler.
use mavctl.Prelude.{◌≡◌, refl, not, Bool, Option, none, some, String, Float, if_cases, option_cases}
use mavctl.Models.Command.{CommandOutcome, adapter_failure}
use mavctl.Models.Mission.{MissionV1, MissionOutcome}
use mavctl.Models.Operation.{OperationKind}
use mavctl.Guards.Decision.{Action}
use mavctl.Guards.Commands.{Command, check}
use mavctl.Server.Interface.{
  Called, returned, raised, crashed, connection_lost, mode_mapping_unavailable,
}
use mavctl.Server.Params.{RpcRequest, flag}
use mavctl.Server.Response.{DaemonResponse}
use mavctl.Server.Replies.{
  not_connected, pre_execute, blocking, command_result, mission_uncertain, mission_rejected,
  result_of,
}
use mavctl.Server.World.{
  DaemonServer, World, Outside, Goal, Handled, answer_or, guarded, report_result, begin_operation,
  begin_accepted,
}
use mavctl.Server.Flight.{maybe_wait, finish_mode}
use mavctl.Server.Missions.{
  refused, transaction_failure, download_failure, finish_transaction, finish_download,
}
use mavctl.Server.Sent.{Asked, Sent}
use mavctl.Server.Behind.{pre_execute_iff}
use mavctl.Server.Effects.{Executes-Sent}
use mavctl.Server.Backed.{
  Ended, Transacted, Backed, Answers, command_result-Backed, finish_wait-Backed, pre_execute-Backed,
}

module _ {V : Type 0} (self : DaemonServer V) (x : Outside) (q : RpcRequest) (w : World V) where
  abbrev pub Holds : Handled × World V → Type 0
  Holds = Answers self q w.vehicle

  answer_or-Holds :
      (o : Option DaemonResponse) (s : World V) (run : World V → Handled × World V)
      → ((response : DaemonResponse) → o ≡ some response → Backed self q w.vehicle response)
      → (o ≡ none → Holds (run s))
      → Holds (answer_or o s run)
  unfolding answer_or
  answer_or-Holds none s run says goes = goes refl
  answer_or-Holds (some response) s run says goes = says response refl

  -- Behind the guard's answers the command goes on.
  pub decided-Holds :
      (c : Command) (s : World V) (run : World V → Handled × World V)
      → Asked self q w.vehicle c
      → (Sent self q w.vehicle c → Holds (run s))
      → Holds (
          answer_or
            (pre_execute
              (check c
                (self.adapter.get_state w.vehicle)
                (flag "confirm" q.params)
                self.guard_config)
              (flag "dry_run" q.params))
            s
            run)
  decided-Holds c s run asked goes =
      let decision =
        check c (self.adapter.get_state w.vehicle) (flag "confirm" q.params) self.guard_config in
      answer_or-Holds (pre_execute decision (flag "dry_run" q.params)) s run
        (λ response e.
          pre_execute-Backed self q w.vehicle c (flag "dry_run" q.params) response asked refl e)
        (λ e.
          let (executes, dry) = (pre_execute_iff decision (flag "dry_run" q.params)).0 e in
          goes (Executes-Sent self x q w c asked executes dry))

  pub guarded-Holds :
      (c : Command) (run : World V → Handled × World V)
      → Asked self q w.vehicle c
      → (Sent self q w.vehicle c → Holds (run w))
      → Holds (guarded self c q.params w run)
  unfolding guarded not_connected
  guarded-Holds c run asked goes =
      if_cases Holds (not (self.adapter.get_state w.vehicle).connected) (λ _. tt)
        (λ _. decided-Holds c w run asked goes)

  -- What a verb's end is to a command.
  abbrev pub Ends : Command → Called CommandOutcome → Type 0
  Ends c called =
      (outcome : CommandOutcome)
      → called ≡ returned outcome
      → Ended self.adapter c w.vehicle outcome

  pub report_result-Holds :
      (c : Command) (action : Action) (called : Called CommandOutcome) (s : World V)
      → Sent self q w.vehicle c
      → Ends c called
      → Holds (report_result action called s)
  unfolding report_result blocking adapter_failure command_result
  report_result-Holds c action (returned outcome) s sent ends =
      command_result-Backed self q w.vehicle c action outcome none none sent (ends outcome refl)
  report_result-Holds c action (raised connection_lost) s sent ends = tt
  report_result-Holds c action (raised error) s sent ends = tt
  report_result-Holds c action crashed s sent ends = tt

  pub begin_accepted-Holds :
      (c : Command) (action : Action) (kind : OperationKind) (goal : Goal) (wait : Option Float)
      (called : Called CommandOutcome) (s : World V)
      → Sent self q w.vehicle c
      → Ends c called
      → Holds (begin_accepted action kind goal wait x called s)
  unfolding begin_accepted begin_operation blocking adapter_failure command_result
  begin_accepted-Holds c action kind goal wait (returned outcome) s sent ends =
      if_cases Holds (not outcome.accepted)
        (λ _.
          command_result-Backed self q w.vehicle c action outcome none none sent
            (ends outcome refl))
        (λ _. tt)
  begin_accepted-Holds c action kind goal wait (raised connection_lost) s sent ends = tt
  begin_accepted-Holds c action kind goal wait (raised error) s sent ends = tt
  begin_accepted-Holds c action kind goal wait crashed s sent ends = tt

  pub finish_mode-Holds :
      (c : Command) (mode : String) (wait : Bool) (called : Called CommandOutcome) (s : World V)
      → Sent self q w.vehicle c
      → Ends c called
      → Holds (finish_mode mode wait x called s)
  unfolding finish_mode blocking adapter_failure command_result
  finish_mode-Holds c mode wait (returned outcome) s sent ends =
      if_cases Holds (not outcome.accepted)
        (λ _.
          command_result-Backed self q w.vehicle c Action.mode outcome none none sent
            (ends outcome refl))
        (λ _.
          option_cases Holds (maybe_wait wait mode x.polls x.final) (λ _. tt)
            (λ status _.
              finish_wait-Backed self q w.vehicle c Action.mode outcome status sent
                (ends outcome refl)))
  finish_mode-Holds c mode wait (raised mode_mapping_unavailable) s sent ends = tt
  finish_mode-Holds c mode wait (raised connection_lost) s sent ends = tt
  finish_mode-Holds c mode wait (raised error) s sent ends = tt
  finish_mode-Holds c mode wait crashed s sent ends = tt

  pub finish_transaction-Holds :
      (c : Command) (called : Called MissionOutcome) (s : World V)
      → Sent self q w.vehicle c
      → ((outcome : MissionOutcome)
          → called ≡ returned outcome
          → Transacted self.adapter c w.vehicle outcome)
      → Holds (finish_transaction called s)
  unfolding finish_transaction refused transaction_failure mission_uncertain result_of
      mission_rejected
  finish_transaction-Holds c (returned outcome) s sent ends = (c, sent, ends outcome refl)
  finish_transaction-Holds c (raised connection_lost) s sent ends = tt
  finish_transaction-Holds c (raised error) s sent ends = tt
  finish_transaction-Holds c crashed s sent ends = tt

  pub finish_download-Holds :
      (called : Called MissionV1) (s : World V)
      → q.method ≡ "mission_download"
      → (self.adapter.download_mission w.vehicle).0 ≡ called
      → Holds (finish_download called s)
  unfolding finish_download refused download_failure mission_uncertain result_of
  finish_download-Holds (returned mission) s m e = (m, e)
  finish_download-Holds (raised connection_lost) s m e = tt
  finish_download-Holds (raised error) s m e = tt
  finish_download-Holds crashed s m e = tt
