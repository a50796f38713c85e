-- ===== src/Cli/Typed.antt =====
-- The command that a command line asks for, and nothing else.
use mavctl.Prelude.{
  ◌≡◌, ◌≤◌, sym, ap, ◌∙◌, true, none, some, Float, is_finite, upper, if◌then◌else◌, arith,
}
use mavctl.Guards.Commands.{Command}
use mavctl.Guards.Commands
use mavctl.Server.Params.{RpcRequest}
use mavctl.Server.World.{DaemonServer}
use mavctl.Server.Sent.{Asked}
use mavctl.Cli.Terminal.{Terminal}
use mavctl.Cli.Mission.{loaded, load_mission_file}
use mavctl.Cli.Invocation.{
  Invocation, status, telemetry, operation_get, arm, disarm, mode, takeoff, land, rtl,
  mission_start, mission_upload, mission_download, mission_clear,
}
use mavctl.Cli.Asked.{Carries}
use mavctl.Cli.Verbs.{
  number, number-le, verb, verb_pos, place, IsDownload, IsStart, IsStatus, IsTelemetry, IsOperation,
  verb-IsDownload, verb-IsStart, verb-IsStatus, verb-IsTelemetry, verb-IsOperation,
}

taken :
    (alt altitude : Float)
    → (if is_finite alt then some alt else none) ≡ some altitude
    → (alt ≡ altitude) × (is_finite alt ≡ true)
taken alt altitude e = ground arith

module _ {S : Type 0} (terminal : Terminal S) where
  -- The command line names the command, with its arguments.
  abbrev pub Typed : Invocation → Command → Type 0
  Typed (arm confirm dry_run) Commands.arm = Unit {0}
  Typed (disarm confirm forced dry_run) (Commands.disarm force) = forced ≡ force
  Typed (mode typed o) (Commands.mode name available) = upper typed ≡ name
  Typed (takeoff alt o) (Commands.takeoff altitude) = (alt ≡ altitude) × (is_finite alt ≡ true)
  Typed (land o) Commands.land = Unit {0}
  Typed (rtl o) Commands.rtl = Unit {0}
  Typed (mission_start o) (Commands.mission_start count) = Unit {0}
  Typed (mission_upload path confirm dry_run) (Commands.mission_upload mission) =
      load_mission_file terminal path ≡ loaded mission
  Typed (mission_clear confirm dry_run) Commands.mission_clear = Unit {0}
  Typed _ _ = ⊥

  -- The queries name no command.
  abbrev pub IsQuery : Invocation → Type 0
  IsQuery status = Unit {0}
  IsQuery telemetry = Unit {0}
  IsQuery (operation_get id) = Unit {0}
  IsQuery (mission_download output json_mode) = Unit {0}
  IsQuery _ = ⊥

  pub query-not-Typed : (i : Invocation) (c : Command) → IsQuery i → ¬ Typed i c
  query-not-Typed status Commands.arm h t = t
  query-not-Typed _ _ h t = ground arith

  module _ {V : Type 0} (self : DaemonServer V) (q : RpcRequest) (v : V) where
    line_place : (i : Invocation) → Carries self.py terminal i q → place q.method ≡ verb i
    unfolding place
    line_place status h = ap place h
    line_place telemetry h = ap place h
    line_place (operation_get id) h = ap place h.0
    line_place (arm confirm dry_run) h = ap place h.0
    line_place (disarm confirm force dry_run) h = ap place h.0
    line_place (mode name o) h = ap place h.0
    line_place (takeoff alt o) h = ap place h.0
    line_place (land o) h = ap place h.0
    line_place (rtl o) h = ap place h.0
    line_place (mission_start o) h = ap place h.0
    line_place (mission_upload path confirm dry_run) h = ap place h.0
    line_place (mission_download output json_mode) h = ap place h
    line_place (mission_clear confirm dry_run) h = ap place h.0

    command_place : (c : Command) → Asked self q v c → place q.method ≡ number c
    unfolding place
    command_place Commands.arm h = ap place h.0
    command_place (Commands.disarm force) h = ap place h.0
    command_place (Commands.mode name available) h = ap place h.0
    command_place (Commands.takeoff altitude) h = ap place h.0
    command_place Commands.land h = ap place h
    command_place Commands.rtl h = ap place h
    command_place (Commands.mission_start count) h = ap place h.0
    command_place (Commands.mission_upload mission) h = ap place h.0
    command_place Commands.mission_clear h = ap place h

    matches :
        (i : Invocation) (c : Command)
        → verb i ≡ number c
        → Carries self.py terminal i q
        → Asked self q v c
        → Typed i c
    matches (arm confirm dry_run) Commands.arm e h a = tt
    matches (disarm confirm forced dry_run) (Commands.disarm force) e h a = sym h.2 ∙ a.1
    matches (mode typed o) (Commands.mode name available) e h a = ap upper (sym h.2) ∙ a.1
    matches (takeoff alt o) (Commands.takeoff altitude) e h a = taken alt altitude (sym h.2 ∙ a.1)
    matches (land o) Commands.land e h a = tt
    matches (rtl o) Commands.rtl e h a = tt
    matches (mission_start o) (Commands.mission_start count) e h a = tt
    matches (mission_upload path confirm dry_run) (Commands.mission_upload mission) e h a =
        let (found, from_file, read) = h.2 in cc (from_file, read, a.1)
    matches (mission_clear confirm dry_run) Commands.mission_clear e h a = tt
    matches status c e h a = absurd (omega (arith, number-le c))
    matches telemetry c e h a = absurd (omega (arith, number-le c))
    matches (operation_get id) c e h a = absurd (omega (arith, number-le c))
    matches (mission_download output json_mode) c e h a = absurd (omega (arith, number-le c))
    matches _ _ e h a = omega arith

    pub Asked-Typed :
        (i : Invocation) (c : Command) → Carries self.py terminal i q → Asked self q v c → Typed i c
    Asked-Typed i c h a = matches i c (sym (line_place i h) ∙ command_place c a) h a

    pub downloads-IsDownload :
        (i : Invocation)
        → Carries self.py terminal i q
        → q.method ≡ "mission_download"
        → IsDownload i
    unfolding place
    downloads-IsDownload i h m = verb-IsDownload i (sym (line_place i h) ∙ ap place m)

    pub counts-IsStart :
        (i : Invocation) → Carries self.py terminal i q → q.method ≡ "mission_start" → IsStart i
    unfolding place
    counts-IsStart i h m = verb-IsStart i (sym (line_place i h) ∙ ap place m)

    pub asks-IsStatus :
        (i : Invocation) → Carries self.py terminal i q → q.method ≡ "status" → IsStatus i
    unfolding place
    asks-IsStatus i h m = verb-IsStatus i (sym (line_place i h) ∙ ap place m)

    pub asks-IsTelemetry :
        (i : Invocation) → Carries self.py terminal i q → q.method ≡ "telemetry" → IsTelemetry i
    unfolding place
    asks-IsTelemetry i h m = verb-IsTelemetry i (sym (line_place i h) ∙ ap place m)

    pub asks-IsOperation :
        (i : Invocation) → Carries self.py terminal i q → q.method ≡ "operation_get" → IsOperation i
    unfolding place
    asks-IsOperation i h m = verb-IsOperation i (sym (line_place i h) ∙ ap place m)

    -- No command line asks for a method that it does not have.
    pub never_pings : (i : Invocation) → Carries self.py terminal i q → ¬ (q.method ≡ "ping")
    unfolding place
    never_pings i h m =
        let numbered : verb i ≡ 0 = sym (line_place i h) ∙ ap place m in
        let positive : 1 ≤ verb i = verb_pos i in omega arith

    pub never_stops : (i : Invocation) → Carries self.py terminal i q → ¬ (q.method ≡ "shutdown")
    unfolding place
    never_stops i h m =
        let numbered : verb i ≡ 0 = sym (line_place i h) ∙ ap place m in
        let positive : 1 ≤ verb i = verb_pos i in omega arith
