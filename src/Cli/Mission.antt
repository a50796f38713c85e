-- ===== src/Cli/Mission.antt =====
-- The mission commands of src/mavctl/cli/app.py.
use mavctl.Prelude.{Bool, true, false, ◌&&◌, Option, none, some, [], ◌∷◌, String, if◌then◌else◌}
use mavctl.Models.Protocol.{usage_error}
use mavctl.Models.Mission.{MissionV1}
use mavctl.Missions.Schema.{validate_mission}
use mavctl.Server.Params.{boolean, number}
use mavctl.Server.Response.{Payload}
use mavctl.Cli.Terminal.{
  unreadable, undecodable, content, Terminal, Ending, emitted, failed, aborted, query_timeout,
  command_base_timeout, client_timeout, call,
}
use mavctl.Cli.Flight.{Options}

-- How `_load_mission_file` ends: by `fail`, by an exception that nothing catches, or with a mission.
pub data Loaded : Type 0 where
  refused crashed : Loaded
  loaded : MissionV1 → Loaded

module _ {S : Type 0} (terminal : Terminal S) where
  -- `model_validate_json`, whose `ValidationError` is refused
  abbrev validate_json : String → Loaded
  unfolding validate_mission
  validate_json raw = elim (terminal.mission_of_json raw) [
    | none ↦ refused
    | some mission ↦ if validate_mission mission then loaded mission else refused
  ]

  -- `_load_mission_file`. It catches an `OSError`, but not a `UnicodeDecodeError`.
  unfoldable pub load_mission_file : String → Loaded
  unfolding validate_json
  load_mission_file path = elim (terminal.read_text path) [
    | unreadable ↦ refused
    | undecodable ↦ crashed
    | content raw ↦ validate_json raw
  ]

  -- `mission_upload`
  unfoldable pub mission_upload : String → Bool → Bool → S → Ending Payload × S
  unfolding call load_mission_file
  mission_upload mission_json confirm dry_run s = elim (load_mission_file mission_json) [
    | refused ↦ (failed usage_error, s)
    | crashed ↦ (aborted, s)
    | loaded mission ↦
        call terminal "mission_upload"
          (("mission", terminal.dump_mission mission)
            ∷ ("confirm", boolean confirm)
            ∷ ("dry_run", boolean dry_run)
            ∷ [])
          command_base_timeout emitted s
  ]

  -- What `mission_download` does with its result; with `--output` it is written to the file.
  unfoldable pub write_output : Option String → Payload → Ending Payload
  write_output none result = emitted result
  write_output (some output) result =
      if terminal.write_text output result then emitted result else failed usage_error

  abbrev given : Option String → Bool
  given none = false
  given (some output) = true

  -- `mission_download`
  unfoldable pub mission_download : Option String → Bool → S → Ending Payload × S
  unfolding call write_output
  mission_download output json_mode s =
      if given output && json_mode
      then (failed usage_error, s)
      else call terminal "mission_download" [] query_timeout (write_output output) s

  -- `mission_start`. It does not check the timeout.
  unfoldable pub mission_start : Options → S → Ending Payload × S
  unfolding call client_timeout
  mission_start o =
      call terminal "mission_start"
        (("confirm", boolean o.confirm)
          ∷ ("dry_run", boolean o.dry_run)
          ∷ ("wait", boolean o.wait)
          ∷ ("timeout", number o.timeout)
          ∷ [])
        (client_timeout o.wait o.timeout) emitted

  -- `mission_clear`
  unfoldable pub mission_clear : Bool → Bool → S → Ending Payload × S
  unfolding call
  mission_clear confirm dry_run =
      call terminal "mission_clear"
        (("confirm", boolean confirm) ∷ ("dry_run", boolean dry_run) ∷ []) command_base_timeout
        emitted
