-- ===== src/Cli/Asked.antt =====
-- What the user types is what the daemon reads.
use mavctl.Prelude.{
  ◌≡◌, ◌↔◌, refl, Bool, true, false, not, ◌&&◌, Option, none, some, [], ◌∷◌, String, Float,
  is_finite, float_lt, float_le, if_cases, if◌then◌else◌, arith,
}
use mavctl.Models.Protocol.{usage_error}
use mavctl.Models.Mission.{MissionV1}
use mavctl.Missions.Schema.{validate_mission}
use mavctl.Server.Params.{
  boolean, number, text, Params, RpcRequest, get_param, is_truthy, flag, timeout_of, wait_timeout,
  Readers, read_altitude, parse_mission, read_mode,
}
use mavctl.Server.Response.{Payload}
use mavctl.Cli.Terminal.{
  Terminal, Ending, emitted, failed, aborted, is_timeout, check_timeout, accept_reply, call,
  command_base_timeout,
}
use mavctl.Cli.Flight.{Options}
use mavctl.Cli.Flight
use mavctl.Cli.Mission.{Loaded, refused, crashed, loaded, load_mission_file, write_output}
use mavctl.Cli.Mission
use mavctl.Cli.Invocation.{
  Invocation, status, telemetry, operation_get, arm, disarm, mode, takeoff, land, rtl,
  mission_start, mission_upload, mission_download, mission_clear, run,
}

-- `str` of a text is the text, and the daemon reads from a dumped mission, once it is loaded, the
-- mission.
pub record Reads {S : Type 0} (py : Readers) (terminal : Terminal S) : Type 0 where
  pub text_of-text : (s : String) → py.text_of (text s) ≡ s
  pub mission_of-dump :
      (path : String) (m : MissionV1)
      → load_mission_file terminal path ≡ loaded m
      → py.mission_of (terminal.dump_mission m) ≡ some m

-- The options that commands share, as the daemon reads them; its test of the timeout is its own.
pub record Opts (q : RpcRequest) (o : Options) : Type 0 where
  pub confirm : flag "confirm" q.params ≡ o.confirm
  pub dry_run : flag "dry_run" q.params ≡ o.dry_run
  pub wait : flag "wait" q.params ≡ o.wait
  pub timeout : wait_timeout q.params ≡ (if is_timeout o.timeout then some o.timeout else none)

-- A plain command: its two flags.
abbrev pub Flags : RpcRequest → Bool → Bool → Type 0
Flags q confirm dry_run = (flag "confirm" q.params ≡ confirm) × (flag "dry_run" q.params ≡ dry_run)

abbrev pub has_output : Option String → Bool
has_output none = false
has_output (some output) = true

module _ {S : Type 0} (terminal : Terminal S) where
  -- The command line is refused before the daemon is asked.
  abbrev pub IsRefused : Invocation → Type 0
  IsRefused (mode name o) = is_timeout o.timeout ≡ false
  IsRefused (takeoff alt o) = is_timeout o.timeout ≡ false
  IsRefused (land o) = is_timeout o.timeout ≡ false
  IsRefused (rtl o) = is_timeout o.timeout ≡ false
  IsRefused (mission_upload path confirm dry_run) = load_mission_file terminal path ≡ refused
  IsRefused (mission_download output json_mode) = (has_output output && json_mode) ≡ true
  IsRefused _ = ⊥

  -- The command line ends by an exception before the daemon is asked.
  abbrev pub IsCrashed : Invocation → Type 0
  IsCrashed (mission_upload path confirm dry_run) = load_mission_file terminal path ≡ crashed
  IsCrashed _ = ⊥

  -- What is done with a result: it is printed, or written to the file first.
  abbrev pub after : Invocation → Payload → Ending Payload
  after (mission_download output json_mode) = write_output terminal output
  after _ = emitted

module _ {S : Type 0} (py : Readers) (terminal : Terminal S) where
  -- What the daemon reads in the request is what the command line says.
  abbrev pub Carries : Invocation → RpcRequest → Type 0
  Carries status q = q.method ≡ "status"
  Carries telemetry q = q.method ≡ "telemetry"
  Carries (operation_get id) q =
      (q.method ≡ "operation_get") × (get_param "operation_id" q.params ≡ some (text id))
  Carries (arm confirm dry_run) q =
      (q.method ≡ "arm") × Flags q confirm dry_run × (flag "force" q.params ≡ false)
  Carries (disarm confirm force dry_run) q =
      (q.method ≡ "disarm") × Flags q confirm dry_run × (flag "force" q.params ≡ force)
  Carries (mode name o) q = (q.method ≡ "mode") × Opts q o × (read_mode py q.params ≡ name)
  Carries (takeoff alt o) q =
      (q.method ≡ "takeoff")
      × Opts q o
      × (read_altitude py q.params ≡ (if is_finite alt then some alt else none))
  Carries (land o) q = (q.method ≡ "land") × Opts q o
  Carries (rtl o) q = (q.method ≡ "rtl") × Opts q o
  Carries (mission_start o) q = (q.method ≡ "mission_start") × Opts q o
  Carries (mission_upload path confirm dry_run) q =
      (q.method ≡ "mission_upload")
      × Flags q confirm dry_run
      × ((mission : MissionV1) × (load_mission_file terminal path ≡ loaded mission)
          × (parse_mission py q.params ≡ some mission))
  Carries (mission_download output json_mode) q = q.method ≡ "mission_download"
  Carries (mission_clear confirm dry_run) q = (q.method ≡ "mission_clear") × Flags q confirm dry_run

  -- A command line is refused with the code for wrong usage, or crashes, or asks once, with what was
  -- typed.
  pub data Asks (i : Invocation) (s : S) : Ending Payload × S → Type 0 where
    refuses : IsRefused terminal i → Asks i s (failed usage_error, s)
    crashes : IsCrashed terminal i → Asks i s (aborted, s)
    asks :
        (q : RpcRequest) (timeout : Float)
        → ¬ IsRefused terminal i
        → ¬ IsCrashed terminal i
        → Carries i q
        → Asks i s (
          accept_reply (after terminal i) (terminal.call_daemon q timeout s).0,
          (terminal.call_daemon q timeout s).1,
        )

  checked-Asks :
      (i : Invocation) (o : Options) (s : S) (method : String) (params : Params) (timeout : Float)
      → (is_timeout o.timeout ≡ false) ↔ IsRefused terminal i
      → ¬ IsCrashed terminal i
      → Carries i (record { method = method; params = params })
      → Asks i s
          (check_timeout o.timeout (call terminal method params timeout (after terminal i)) s)
  unfolding check_timeout call
  checked-Asks i o s method params timeout bad calm carries =
      if_cases (Asks i s) (not (is_timeout o.timeout)) (λ e. refuses (bad.0 (ground arith)))
        (λ good.
          asks (record { method = method; params = params }) timeout
            (λ r. let late = bad.1 r in ground arith) calm carries)

  timeout_agrees :
      (t : Float) → timeout_of (some (number t)) ≡ (if is_timeout t then some t else none)
  unfolding timeout_of is_timeout float_le float_lt is_finite
  timeout_agrees t = ground arith

  loaded_valid :
      (path : String) (mission : MissionV1)
      → load_mission_file terminal path ≡ loaded mission
      → validate_mission mission ≡ true
  unfolding load_mission_file
  loaded_valid path mission e = ground arith

  upload_agrees :
      (path : String) (mission : MissionV1) (rest : Params)
      → py.mission_of (terminal.dump_mission mission) ≡ some mission
      → load_mission_file terminal path ≡ loaded mission
      → parse_mission py (("mission", terminal.dump_mission mission) ∷ rest) ≡ some mission
  unfolding parse_mission get_param
  upload_agrees path mission rest read e = rw read (ground (arith, loaded_valid path mission e))

  -- `mission upload`, for the end of `_load_mission_file`.
  upload-Asks :
      (path : String) (confirm dry_run : Bool) (s : S) (l : Loaded)
      → Reads py terminal
      → load_mission_file terminal path ≡ l
      → Asks (mission_upload path confirm dry_run) s (elim l [
        | refused ↦ (failed usage_error, s)
        | crashed ↦ (aborted, s)
        | loaded mission ↦
            call terminal "mission_upload"
              (("mission", terminal.dump_mission mission)
                ∷ ("confirm", boolean confirm)
                ∷ ("dry_run", boolean dry_run)
                ∷ [])
              command_base_timeout
              emitted
              s
      ])
  unfolding call flag get_param is_truthy parse_mission
  upload-Asks path confirm dry_run s refused h e = refuses e
  upload-Asks path confirm dry_run s crashed h e = crashes e
  upload-Asks path confirm dry_run s (loaded mission) h e =
      asks _ _ (λ r. cc (e, r)) (λ r. cc (e, r))
        (
          refl,
          (refl, refl),
          (
            mission,
            e,
            upload_agrees path mission
                (("confirm", boolean confirm) ∷ ("dry_run", boolean dry_run) ∷ [])
                (h.mission_of-dump path mission e) e,
          ),
        )

  -- A command line is refused with the code for wrong usage exactly for a timeout that is not finite
  -- or not above 0, for a mission file that cannot be read or holds no valid mission, or for
  -- `--output` beside `--json`; it ends by an exception exactly for a mission file that is not
  -- UTF-8. A mission start is never refused. Any other asks the daemon once, and in the request the
  -- daemon reads what was typed: the method, the flags, the timeout if it is one, the altitude if it
  -- is finite, the mode, the operation's id and the mission of the file.
  pub run-Asks : (i : Invocation) (s : S) → Reads py terminal → Asks i s (run terminal i s)
  unfolding run Flight.status Flight.telemetry Flight.operation_get Flight.arm Flight.disarm
      Flight.mode Flight.takeoff Flight.land Flight.rtl Mission.mission_start Mission.mission_upload
      Mission.mission_download Mission.mission_clear call flag get_param is_truthy wait_timeout
      read_mode read_altitude parse_mission
  run-Asks status s h = asks _ _ (λ r. r) (λ r. r) refl
  run-Asks telemetry s h = asks _ _ (λ r. r) (λ r. r) refl
  run-Asks (operation_get id) s h = asks _ _ (λ r. r) (λ r. r) (refl, refl)
  run-Asks (arm confirm dry_run) s h = asks _ _ (λ r. r) (λ r. r) (refl, (refl, refl), refl)
  run-Asks (disarm confirm force dry_run) s h =
      asks _ _ (λ r. r) (λ r. r) (refl, (refl, refl), refl)
  run-Asks (mode name o) s h =
      checked-Asks (mode name o) o s "mode" _ _ (λ e. e, λ e. e) (λ r. r)
        (
          refl,
          record {
            confirm = refl;
            dry_run = refl;
            wait = refl;
            timeout = timeout_agrees o.timeout;
          },
          h.text_of-text name,
        )
  run-Asks (takeoff alt o) s h =
      checked-Asks (takeoff alt o) o s "takeoff" _ _ (λ e. e, λ e. e) (λ r. r)
        (
          refl,
          record {
            confirm = refl;
            dry_run = refl;
            wait = refl;
            timeout = timeout_agrees o.timeout;
          },
          refl,
        )
  run-Asks (land o) s h =
      checked-Asks (land o) o s "land" _ _ (λ e. e, λ e. e) (λ r. r)
        (
          refl,
          record {
            confirm = refl;
            dry_run = refl;
            wait = refl;
            timeout = timeout_agrees o.timeout;
          },
        )
  run-Asks (rtl o) s h =
      checked-Asks (rtl o) o s "rtl" _ _ (λ e. e, λ e. e) (λ r. r)
        (
          refl,
          record {
            confirm = refl;
            dry_run = refl;
            wait = refl;
            timeout = timeout_agrees o.timeout;
          },
        )
  run-Asks (mission_start o) s h =
      asks _ _ (λ r. r) (λ r. r)
        (
          refl,
          record {
            confirm = refl;
            dry_run = refl;
            wait = refl;
            timeout = timeout_agrees o.timeout;
          },
        )
  run-Asks (mission_upload path confirm dry_run) s h =
      upload-Asks path confirm dry_run s (load_mission_file terminal path) h refl
  run-Asks (mission_download output json_mode) s h =
      if_cases (Asks (mission_download output json_mode) s) (has_output output && json_mode)
        (λ e. refuses e) (λ e. asks _ _ (λ r. cc (e, r)) (λ r. r) refl)
  run-Asks (mission_clear confirm dry_run) s h = asks _ _ (λ r. r) (λ r. r) (refl, (refl, refl))
