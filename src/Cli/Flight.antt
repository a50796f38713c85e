-- ===== src/Cli/Flight.antt =====
-- The flight commands of src/mavctl/cli/app.py, and the queries.
use mavctl.Prelude.{Bool, [], ◌∷◌, String, Float}
use mavctl.Server.Params.{boolean, number, text, Params}
use mavctl.Server.Response.{Payload}
use mavctl.Cli.Terminal.{
  Terminal, Ending, emitted, query_timeout, command_base_timeout, client_timeout, check_timeout,
  call,
}

-- `--confirm`, `--dry-run`, `--wait` and `--timeout`
pub record Options : Type 0 where
  pub confirm : Bool
  pub dry_run : Bool
  pub wait : Bool
  pub timeout : Float

module _ {S : Type 0} (terminal : Terminal S) where
  -- `status` and `telemetry`
  unfoldable pub status : S → Ending Payload × S
  unfolding call
  status = call terminal "status" [] query_timeout emitted

  unfoldable pub telemetry : S → Ending Payload × S
  unfolding call
  telemetry = call terminal "telemetry" [] query_timeout emitted

  -- `operation_get`
  unfoldable pub operation_get : String → S → Ending Payload × S
  unfolding call
  operation_get operation_id =
      call terminal "operation_get" (("operation_id", text operation_id) ∷ []) query_timeout emitted

  -- `arm`
  unfoldable pub arm : Bool → Bool → S → Ending Payload × S
  unfolding call
  arm confirm dry_run =
      call terminal "arm" (("confirm", boolean confirm) ∷ ("dry_run", boolean dry_run) ∷ [])
        command_base_timeout emitted

  -- `disarm`
  unfoldable pub disarm : Bool → Bool → Bool → S → Ending Payload × S
  unfolding call
  disarm confirm force dry_run =
      call terminal "disarm"
        (("confirm", boolean confirm)
          ∷ ("force", boolean force)
          ∷ ("dry_run", boolean dry_run)
          ∷ [])
        command_base_timeout emitted

  -- `mode`
  unfoldable pub mode : String → Options → S → Ending Payload × S
  unfolding call check_timeout client_timeout
  mode mode_name o = check_timeout o.timeout (
      call terminal "mode"
        (("mode", text mode_name)
          ∷ ("confirm", boolean o.confirm)
          ∷ ("wait", boolean o.wait)
          ∷ ("timeout", number o.timeout)
          ∷ ("dry_run", boolean o.dry_run)
          ∷ [])
        (client_timeout o.wait o.timeout) emitted)

  -- `takeoff`
  unfoldable pub takeoff : Float → Options → S → Ending Payload × S
  unfolding call check_timeout client_timeout
  takeoff alt o = check_timeout o.timeout (
      call terminal "takeoff"
        (("alt", number alt)
          ∷ ("confirm", boolean o.confirm)
          ∷ ("wait", boolean o.wait)
          ∷ ("timeout", number o.timeout)
          ∷ ("dry_run", boolean o.dry_run)
          ∷ [])
        (client_timeout o.wait o.timeout) emitted)

  -- The parameters of `land` and `rtl`.
  abbrev descent_params : Options → Params
  descent_params o =
      ("confirm", boolean o.confirm)
      ∷ ("wait", boolean o.wait)
      ∷ ("timeout", number o.timeout)
      ∷ ("dry_run", boolean o.dry_run)
      ∷ []

  -- `land`
  unfoldable pub land : Options → S → Ending Payload × S
  unfolding call check_timeout client_timeout
  land o =
      check_timeout o.timeout
        (call terminal "land" (descent_params o) (client_timeout o.wait o.timeout) emitted)

  -- `rtl`
  unfoldable pub rtl : Options → S → Ending Payload × S
  unfolding call check_timeout client_timeout
  rtl o =
      check_timeout o.timeout
        (call terminal "rtl" (descent_params o) (client_timeout o.wait o.timeout) emitted)
