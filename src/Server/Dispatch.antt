-- ===== src/Server/Dispatch.antt =====
-- The fast handlers of src/mavctl/daemon/server.py, the table of methods and `_dispatch`.
use mavctl.Prelude.{not, Option, none, some, List, [], ◌∷◌, String, str_eq, true, if◌then◌else◌}
use mavctl.Models.Protocol.{general_error, usage_error}
use mavctl.Operations.Registry.{snapshot}
use mavctl.Server.Params.{Params, Json, RpcRequest, get_param, is_truthy}
use mavctl.Server.Response.{DaemonResponse, success, failure}
use mavctl.Server.Response
use mavctl.Server.Replies.{not_connected}
use mavctl.Server.World.{DaemonServer, World, Outside, Handled, answered, escaped, started}
use mavctl.Server.Flight.{m_arm, m_disarm, m_mode, m_takeoff, m_land, m_rtl}
use mavctl.Server.Missions.{m_mission_upload, m_mission_clear, m_mission_download, m_mission_start}

abbrev pub Handler : Type 0 → Type 0
Handler V = DaemonServer V → Outside → Params → World V → Handled × World V

module _ {V : Type 0} (self : DaemonServer V) (x : Outside) (p : Params) (w : World V) where
  -- `_m_ping`
  unfoldable pub m_ping : Handled × World V
  m_ping = (answered (success (Response.pong self.connection_string)), w)

  -- `_m_status`
  unfoldable pub m_status : Handled × World V
  m_status = (answered (success (Response.vehicle_state (self.adapter.get_state w.vehicle))), w)

  -- `_m_telemetry`
  unfoldable pub m_telemetry : Handled × World V
  unfolding not_connected
  m_telemetry =
      if not (self.adapter.get_state w.vehicle).connected
      then (answered (not_connected self.connection_string), w)
      else (answered (success (Response.telemetry (self.adapter.get_telemetry w.vehicle))), w)

  -- `_m_shutdown`
  unfoldable pub m_shutdown : Handled × World V
  m_shutdown = (answered (success Response.stopping), record w { stopping = true })

  -- `operation_id` of the request as text, if it is truthy
  unfoldable pub asked_id : Option Json → Option String
  unfolding is_truthy
  asked_id none = none
  asked_id (some value) = if is_truthy value then some (self.py.text_of value) else none

  -- The answer to the text asked for.
  unfoldable pub find_operation : Option String → DaemonResponse
  unfolding snapshot
  find_operation none = failure usage_error (Response.operation_not_found none)
  find_operation (some id) = elim (snapshot id x.now w.operations) [
    | none ↦ failure usage_error (Response.operation_not_found (some id))
    | some found ↦ success (Response.operation found)
  ]

  -- `_m_operation_get`
  unfoldable pub m_operation_get : Handled × World V
  unfolding get_param asked_id find_operation
  m_operation_get = (answered (find_operation (asked_id (get_param "operation_id" p))), w)

-- `_methods`
unfoldable pub methods : {V : Type 0} → List (String × Handler V)
methods =
    ("ping", m_ping)
    ∷ ("status", m_status)
    ∷ ("telemetry", m_telemetry)
    ∷ ("shutdown", m_shutdown)
    ∷ ("operation_get", m_operation_get)
    ∷ ("mission_start", m_mission_start)
    ∷ ("mission_upload", m_mission_upload)
    ∷ ("mission_download", m_mission_download)
    ∷ ("mission_clear", m_mission_clear)
    ∷ ("arm", m_arm)
    ∷ ("disarm", m_disarm)
    ∷ ("mode", m_mode)
    ∷ ("takeoff", m_takeoff)
    ∷ ("land", m_land)
    ∷ ("rtl", m_rtl)
    ∷ []

-- `self._methods.get(method)`
unfoldable pub find_method : {A : Type 0} → String → List (String × A) → Option A
find_method name [] = none
find_method name ((key, handler) ∷ rest) =
    if str_eq key name then some handler else find_method name rest

-- What an exception that escapes a handler becomes.
unfoldable pub contain : {V : Type 0} → Handled × World V → Handled × World V
contain (escaped, w) = (answered (failure general_error Response.nothing), w)
contain (answered response, w) = (answered response, w)
contain (started s, w) = (started s, w)

-- `_dispatch`; `none` is a line that is no request.
unfoldable pub dispatch :
    {V : Type 0} → DaemonServer V → Outside → Option RpcRequest → World V → Handled × World V
unfolding methods find_method contain
dispatch self x none w = (answered (failure usage_error Response.nothing), w)
dispatch self x (some request) w = elim (find_method request.method methods) [
  | none ↦ (answered (failure general_error Response.nothing), w)
  | some handler ↦ contain (handler self x request.params w)
]
