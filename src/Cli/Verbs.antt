-- ===== src/Cli/Verbs.antt =====
-- The methods of the command lines and of the commands, told apart by a number.
use mavctl.Prelude.{ℕ, ◌≡◌, ◌≤◌, Bool, false, String, str_eq, if◌then◌else◌, arith}
use mavctl.Guards.Commands.{Command}
use mavctl.Guards.Commands
use mavctl.Cli.Invocation.{
  Invocation, status, telemetry, operation_get, arm, disarm, mode, takeoff, land, rtl,
  mission_start, mission_upload, mission_download, mission_clear,
}

-- `--confirm` and `--dry-run` of a command line.
abbrev pub says_confirm : Invocation → Bool
says_confirm (arm confirm dry_run) = confirm
says_confirm (disarm confirm force dry_run) = confirm
says_confirm (mode name o) = o.confirm
says_confirm (takeoff alt o) = o.confirm
says_confirm (land o) = o.confirm
says_confirm (rtl o) = o.confirm
says_confirm (mission_start o) = o.confirm
says_confirm (mission_upload path confirm dry_run) = confirm
says_confirm (mission_clear confirm dry_run) = confirm
says_confirm _ = false

abbrev pub says_dry : Invocation → Bool
says_dry (arm confirm dry_run) = dry_run
says_dry (disarm confirm force dry_run) = dry_run
says_dry (mode name o) = o.dry_run
says_dry (takeoff alt o) = o.dry_run
says_dry (land o) = o.dry_run
says_dry (rtl o) = o.dry_run
says_dry (mission_start o) = o.dry_run
says_dry (mission_upload path confirm dry_run) = dry_run
says_dry (mission_clear confirm dry_run) = dry_run
says_dry _ = false

-- The names of the methods, numbered.
abbrev pub verb : Invocation → ℕ
verb status = 10
verb telemetry = 11
verb (operation_get id) = 12
verb (arm confirm dry_run) = 1
verb (disarm confirm force dry_run) = 2
verb (mode name o) = 3
verb (takeoff alt o) = 4
verb (land o) = 5
verb (rtl o) = 6
verb (mission_start o) = 7
verb (mission_upload path confirm dry_run) = 8
verb (mission_download output json_mode) = 13
verb (mission_clear confirm dry_run) = 9

abbrev pub number : Command → ℕ
number Commands.arm = 1
number (Commands.disarm force) = 2
number (Commands.mode name available) = 3
number (Commands.takeoff altitude) = 4
number Commands.land = 5
number Commands.rtl = 6
number (Commands.mission_start count) = 7
number (Commands.mission_upload mission) = 8
number Commands.mission_clear = 9

pub number-le : (c : Command) → number c ≤ 9
number-le Commands.arm = omega arith
number-le _ = omega arith

-- `mission download`, and `mission start`
abbrev pub IsDownload : Invocation → Type 0
IsDownload (mission_download output json_mode) = Unit {0}
IsDownload _ = ⊥

abbrev pub IsStart : Invocation → Type 0
IsStart (mission_start o) = Unit {0}
IsStart _ = ⊥

-- `status`, `telemetry` and `operation`
abbrev pub IsStatus : Invocation → Type 0
IsStatus status = Unit {0}
IsStatus _ = ⊥

abbrev pub IsTelemetry : Invocation → Type 0
IsTelemetry telemetry = Unit {0}
IsTelemetry _ = ⊥

abbrev pub IsOperation : Invocation → Type 0
IsOperation (operation_get id) = Unit {0}
IsOperation _ = ⊥

pub verb-IsStatus : (i : Invocation) → verb i ≡ 10 → IsStatus i
verb-IsStatus status e = tt
verb-IsStatus _ e = omega arith

pub verb-IsTelemetry : (i : Invocation) → verb i ≡ 11 → IsTelemetry i
verb-IsTelemetry telemetry e = tt
verb-IsTelemetry _ e = omega arith

pub verb-IsOperation : (i : Invocation) → verb i ≡ 12 → IsOperation i
verb-IsOperation (operation_get id) e = tt
verb-IsOperation _ e = omega arith

pub verb_pos : (i : Invocation) → 1 ≤ verb i
verb_pos status = omega arith
verb_pos _ = omega arith

pub verb-IsDownload : (i : Invocation) → verb i ≡ 13 → IsDownload i
verb-IsDownload (mission_download output json_mode) e = tt
verb-IsDownload _ e = omega arith

pub verb-IsStart : (i : Invocation) → verb i ≡ 7 → IsStart i
verb-IsStart (mission_start o) e = tt
verb-IsStart _ e = omega arith

unfoldable pub place : String → ℕ
place m =
    if str_eq m "arm"
    then 1
    else if str_eq m "disarm"
    then 2
    else if str_eq m "mode"
    then 3
    else if str_eq m "takeoff"
    then 4
    else if str_eq m "land"
    then 5
    else if str_eq m "rtl"
    then 6
    else if str_eq m "mission_start"
    then 7
    else if str_eq m "mission_upload"
    then 8
    else if str_eq m "mission_clear"
    then 9
    else if str_eq m "status"
    then 10
    else if str_eq m "telemetry"
    then 11
    else if str_eq m "operation_get"
    then 12
    else if str_eq m "mission_download"
    then 13
    else 0
