-- ===== src/Server/Effects.antt =====
-- What the handlers do to the vehicle: nothing, a reading, or a command that its guard allows.
use mathlib.Core.Path.{subst}
use mavctl.Prelude.{
  ℕ, ◌≡◌, refl, sym, ◌∙◌, not, Bool, true, false, Option, String, Float, if_cases, upper,
  option_cases, arith,
}
use mavctl.Models.Command.{CommandOutcome}
use mavctl.Models.Operation.{OperationKind}
use mavctl.Guards.Decision.{Action}
use mavctl.Guards.Commands.{Command, check}
use mavctl.Guards.Needs.{Executes}
use mavctl.Guards.Safety.{check_iff}
use mavctl.Server.Interface.{Called, returned, raised, crashed}
use mavctl.Server.Params.{RpcRequest, flag, wait_timeout, read_altitude, read_mode, parse_mission}
use mavctl.Server.World.{
  DaemonServer, World, Outside, Goal, Handled, guarded, call_verb, report_result, begin_operation,
  begin_accepted, altitude_reached, disarmed, wanted,
}
use mavctl.Server.Flight.{finish_mode, m_arm, m_disarm, m_mode, m_takeoff, m_descent, m_land, m_rtl}
use mavctl.Server.Missions.{
  refused, finish_transaction, finish_download, start_counted, m_mission_upload, m_mission_clear,
  m_mission_download, m_mission_start,
}
use mavctl.Server.Sent.{Asked, Sent, Effect, untouched, downloads, counts, sends, effect}
use mavctl.Server.Behind.{answer_or_cases, guarded_cases}

module _ {V : Type 0} where
  -- What follows a verb leaves the vehicle as the verb left it.
  abbrev Keeps : {A : Type 0} → (Called A → World V → Handled × World V) → Type 0
  Keeps {A} next = (a : Called A) (w : World V) → (next a w).1.vehicle ≡ w.vehicle

  report_result-Keeps : (action : Action) → Keeps (report_result action)
  unfolding report_result
  report_result-Keeps action a w = ground arith

  begin_accepted-Keeps :
      (action : Action) (kind : OperationKind) (goal : Goal) (wait : Option Float) (x : Outside)
      → Keeps (begin_accepted action kind goal wait x)
  unfolding begin_accepted begin_operation
  begin_accepted-Keeps action kind goal wait x a w = ground arith

  finish_mode-Keeps : (mode : String) (wait : Bool) (x : Outside) → Keeps (finish_mode mode wait x)
  unfolding finish_mode
  finish_mode-Keeps mode wait x a w = ground arith

  finish_transaction-Keeps : Keeps finish_transaction
  unfolding finish_transaction refused
  finish_transaction-Keeps a w = ground arith

  finish_download-Keeps : Keeps finish_download
  unfolding finish_download refused
  finish_download-Keeps a w = ground arith

module _ {V : Type 0} (self : DaemonServer V) (x : Outside) (q : RpcRequest) (w : World V) where
  -- What a handler may do to the vehicle.
  abbrev pub Affects : Handled × World V → Type 0
  Affects result = Effect self q w.vehicle result.1.vehicle

  pub Executes-Sent :
      (c : Command)
      → Asked self q w.vehicle c
      → Executes
          (check c (self.adapter.get_state w.vehicle) (flag "confirm" q.params) self.guard_config)
      → flag "dry_run" q.params ≡ false
      → Sent self q w.vehicle c
  Executes-Sent c asked e dry =
      let ready =
        (check_iff c (self.adapter.get_state w.vehicle) (flag "confirm" q.params)
            self.guard_config).0
          e in
      record { asked = asked; not_dry = dry; gates = ready.0; needs = ready.1 }

  guarded-Affects :
      {A : Type 0} (c : Command) (verb : V → Called A × V)
      (next : Called A → World V → Handled × World V)
      → Asked self q w.vehicle c
      → Keeps next
      → (verb w.vehicle).1 ≡ effect self.adapter c w.vehicle
      → Affects (guarded self c q.params w (λ w. call_verb verb w next))
  unfolding call_verb
  guarded-Affects c verb next asked keeps same =
      guarded_cases Affects w self c q.params (λ w. call_verb verb w next) (λ _. untouched)
        (λ e dry.
          subst (Effect self q w.vehicle) (sym (keeps _ _ ∙ same))
            (sends c (Executes-Sent c asked e dry)))

  pub arm-Affects : q.method ≡ "arm" → Affects (m_arm self x q.params w)
  unfolding m_arm effect
  arm-Affects m =
      if_cases Affects (flag "force" q.params) (λ _. untouched)
        (λ unforced.
          guarded-Affects Command.arm self.adapter.arm (report_result Action.arm) (m, unforced)
            (report_result-Keeps Action.arm) refl)

  pub disarm-Affects : q.method ≡ "disarm" → Affects (m_disarm self x q.params w)
  unfolding m_disarm effect
  disarm-Affects m =
      guarded-Affects (Command.disarm (flag "force" q.params))
        (self.adapter.disarm (flag "force" q.params)) (report_result Action.disarm) (m, refl)
        (report_result-Keeps Action.disarm) refl

  pub mode-Affects : q.method ≡ "mode" → Affects (m_mode self x q.params w)
  unfolding m_mode effect
  mode-Affects m =
      let mode : String = upper (read_mode self.py q.params) in
      option_cases Affects (wait_timeout q.params) (λ _. untouched)
        (λ timeout _.
          guarded-Affects (Command.mode mode (self.adapter.mode_names w.vehicle))
            (self.adapter.set_mode mode) (finish_mode mode (flag "wait" q.params) x) (m, refl, refl)
            (finish_mode-Keeps mode (flag "wait" q.params) x) refl)

  begun-Affects :
      (action : Action) (kind : OperationKind) (goal : Goal) (wait : Option Float) (c : Command)
      (verb : V → Called CommandOutcome × V)
      → Asked self q w.vehicle c
      → (verb w.vehicle).1 ≡ effect self.adapter c w.vehicle
      → Affects (
          guarded self c q.params w
            (λ w. call_verb verb w (begin_accepted action kind goal wait x)))
  begun-Affects action kind goal wait c verb asked same =
      guarded-Affects c verb (begin_accepted action kind goal wait x) asked
        (begin_accepted-Keeps action kind goal wait x) same

  pub takeoff-Affects : q.method ≡ "takeoff" → Affects (m_takeoff self x q.params w)
  unfolding m_takeoff effect
  takeoff-Affects m =
      option_cases Affects (read_altitude self.py q.params) (λ _. untouched)
        (λ altitude read.
          option_cases Affects (wait_timeout q.params) (λ _. untouched)
            (λ timeout _.
              begun-Affects Action.takeoff OperationKind.takeoff (altitude_reached altitude)
                (wanted q.params timeout) (Command.takeoff altitude) (self.adapter.takeoff altitude)
                (m, read) refl))

  descent-Affects :
      (action : Action) (kind : OperationKind) (c : Command) (verb : V → Called CommandOutcome × V)
      → Asked self q w.vehicle c
      → (verb w.vehicle).1 ≡ effect self.adapter c w.vehicle
      → Affects (m_descent self x q.params w action kind c verb)
  unfolding m_descent
  descent-Affects action kind c verb asked same =
      option_cases Affects (wait_timeout q.params) (λ _. untouched)
        (λ timeout _.
          begun-Affects action kind disarmed (wanted q.params timeout) c verb asked same)

  pub land-Affects : q.method ≡ "land" → Affects (m_land self x q.params w)
  unfolding m_land effect
  land-Affects m =
      descent-Affects Action.land OperationKind.land Command.land self.adapter.land m refl

  pub rtl-Affects : q.method ≡ "rtl" → Affects (m_rtl self x q.params w)
  unfolding m_rtl effect
  rtl-Affects m = descent-Affects Action.rtl OperationKind.rtl Command.rtl self.adapter.rtl m refl

  pub mission_upload-Affects :
      q.method ≡ "mission_upload" → Affects (m_mission_upload self x q.params w)
  unfolding m_mission_upload effect
  mission_upload-Affects m =
      option_cases Affects (parse_mission self.py q.params) (λ _. untouched)
        (λ mission parsed.
          guarded-Affects (Command.mission_upload mission) (self.adapter.upload_mission mission)
            finish_transaction (m, parsed) finish_transaction-Keeps refl)

  pub mission_clear-Affects :
      q.method ≡ "mission_clear" → Affects (m_mission_clear self x q.params w)
  unfolding m_mission_clear effect
  mission_clear-Affects m =
      guarded-Affects Command.mission_clear self.adapter.clear_mission finish_transaction m
        finish_transaction-Keeps refl

  pub mission_download-Affects :
      q.method ≡ "mission_download" → Affects (m_mission_download self x q.params w)
  unfolding m_mission_download call_verb
  mission_download-Affects m =
      if_cases Affects (not (self.adapter.get_state w.vehicle).connected) (λ _. untouched)
        (λ up.
          subst (Effect self q w.vehicle) (sym (finish_download-Keeps _ _))
            (downloads m (ground arith)))

  -- Behind the probe: refused, or started.
  counted-Affects :
      (timeout : Float) (counted : Called ℕ)
      → q.method ≡ "mission_start"
      → (self.adapter.get_state w.vehicle).connected ≡ true
      → (self.adapter.get_mission_count w.vehicle).0 ≡ counted
      → Affects (
          start_counted self x q.params w
            (self.adapter.get_state w.vehicle)
            timeout
            counted
            (record w { vehicle = (self.adapter.get_mission_count w.vehicle).1 }))
  unfolding start_counted refused call_verb effect
  counted-Affects timeout crashed m up probe = counts m up
  counted-Affects timeout (raised error) m up probe =
      subst (Effect self q w.vehicle) (ground arith) (counts m up)
  counted-Affects timeout (returned count) m up probe =
      answer_or_cases Affects (record w { vehicle = (self.adapter.get_mission_count w.vehicle).1 })
        (check (Command.mission_start count) (self.adapter.get_state w.vehicle)
          (flag "confirm" q.params) self.guard_config)
        (flag "dry_run" q.params) _ (λ _. counts m up)
        (λ e dry.
          if_cases Affects
            (check (Command.mission_start count) (self.adapter.get_state w.vehicle)
              (flag "confirm" q.params) self.guard_config).already_satisfied
            (λ _. counts m up)
            (λ _. subst (Effect self q w.vehicle) (sym (begin_accepted-Keeps _ _ _ _ x _ _)) (
              sends (Command.mission_start count)
                (Executes-Sent (Command.mission_start count) (m, probe) e dry))))

  pub mission_start-Affects :
      q.method ≡ "mission_start" → Affects (m_mission_start self x q.params w)
  unfolding m_mission_start call_verb
  mission_start-Affects m =
      option_cases Affects (wait_timeout q.params) (λ _. untouched)
        (λ timeout _.
          if_cases Affects (not (self.adapter.get_state w.vehicle).connected) (λ _. untouched)
            (λ up. counted-Affects timeout _ m (ground arith) refl))
