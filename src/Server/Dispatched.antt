-- ===== src/Server/Dispatched.antt =====
-- What holds of every method holds of a dispatched request, and so: no request does to the vehicle
-- what it does not ask for or what a guard refuses.
use text.Mathlib.TextEquality.{eq_iff}
use mathlib.Core.Path.{subst}
use mavctl.Prelude.{
  ◌≡◌, ◌≢◌, refl, sym, not, Option, some, List, [], ◌∷◌, String, str_eq, option_cases, if_cases,
  if◌then◌else◌, arith,
}
use mavctl.Server.Params.{Params, RpcRequest}
use mavctl.Server.Response.{DaemonResponse}
use mavctl.Server.World.{DaemonServer, World, Outside, Handled, answered, escaped, started}
use mavctl.Server.Dispatch.{
  Handler, methods, find_method, contain, dispatch, m_ping, m_status, m_telemetry, m_shutdown,
  m_operation_get,
}
use mavctl.Server.Sent.{Effect, untouched}
use mavctl.Server.Accepted.{Tracks}
use mavctl.Server.Activates.{
  arm-Tracked, disarm-Tracked, mode-Tracked, takeoff-Tracked, land-Tracked, rtl-Tracked,
  mission_upload-Tracked, mission_clear-Tracked, mission_download-Tracked, mission_start-Tracked,
}
use mavctl.Server.Effects.{
  arm-Affects, disarm-Affects, mode-Affects, takeoff-Affects, land-Affects, rtl-Affects,
  mission_upload-Affects, mission_clear-Affects, mission_download-Affects, mission_start-Affects,
}

-- A predicate at every row of a table.
infixr 5 ◌&◌
pub data EachRow {A : Type 0} (P : String → A → Type 0) : List (String × A) → Type 0 where
  end : EachRow P []
  ◌&◌ :
      {key : String} {a : A} {rest : List (String × A)}
      → P key a
      → EachRow P rest
      → EachRow P ((key, a) ∷ rest)

found_row :
    {A : Type 0} (P : String → A → Type 0) (name key : String) (a b : A) (later : Option A)
    → P key b
    → (later ≡ some a → P name a)
    → (if str_eq key name then some b else later) ≡ some a
    → P name a
found_row P name key a b later row rest =
    if_cases (λ o. o ≡ some a → P name a) (str_eq key name)
      (λ e f.
        let named : key ≡ name = (eq_iff key name).0 e in
        let same : b ≡ a = ground arith in subst (P name) same (subst (λ k. P k b) named row))
      (λ _ f. rest f)

pub find_method-EachRow :
    {A : Type 0} (P : String → A → Type 0) (name : String) (table : List (String × A)) (a : A)
    → EachRow P table
    → find_method name table ≡ some a
    → P name a
unfolding find_method
find_method-EachRow P name [] a end found = cc found
find_method-EachRow P name ((key, b) ∷ rest) a (row & rows) found =
    found_row P name key a b (find_method name rest) row
      (λ f. find_method-EachRow P name rest a rows f) found

module _ {V : Type 0} (self : DaemonServer V) (x : Outside) (w : World V) where
  contain-world : (result : Handled × World V) → (contain result).1 ≡ result.1
  unfolding contain
  contain-world (answered response, w) = refl
  contain-world (escaped, w) = refl
  contain-world (started s, w) = refl

  -- The request that names a method.
  abbrev pub Leads : (RpcRequest → Handled × World V → Type 0) → String → Handler V → Type 0
  Leads P name handler = (q : RpcRequest) → q.method ≡ name → P q (handler self x q.params w)

  telemetry_cases :
      (P : Handled × World V → Type 0) (p : Params)
      → ((response : DaemonResponse) → P (answered response, w))
      → P (m_telemetry self x p w)
  unfolding m_telemetry
  telemetry_cases P p answers =
      if_cases P (not (self.adapter.get_state w.vehicle).connected) (λ _. answers _)
        (λ _. answers _)

  effects-EachRow : EachRow (Leads (λ q result. Effect self q w.vehicle result.1.vehicle)) methods
  unfolding methods m_ping m_status m_telemetry m_shutdown m_operation_get
  effects-EachRow =
      (λ q _. untouched)
      & (λ q _. untouched)
      & (λ q _.
          telemetry_cases (λ result. Effect self q w.vehicle result.1.vehicle) q.params
            (λ _. untouched))
      & (λ q _. untouched)
      & (λ q _. untouched)
      & (λ q m. mission_start-Affects self x q w m)
      & (λ q m. mission_upload-Affects self x q w m)
      & (λ q m. mission_download-Affects self x q w m)
      & (λ q m. mission_clear-Affects self x q w m)
      & (λ q m. arm-Affects self x q w m)
      & (λ q m. disarm-Affects self x q w m)
      & (λ q m. mode-Affects self x q w m)
      & (λ q m. takeoff-Affects self x q w m)
      & (λ q m. land-Affects self x q w m)
      & (λ q m. rtl-Affects self x q w m)
      & end

  -- A request leaves the vehicle alone, or only reads its mission or its mission count, or sends a
  -- command that the request asks for by its method and parameters, that is confirmed and no dry
  -- run, that meets a fresh heartbeat and a vehicle in the state that the command needs. An arm
  -- command is never forced.
  pub dispatch-Effect :
      (q : RpcRequest) → Effect self q w.vehicle (dispatch self x (some q) w).1.vehicle
  unfolding dispatch
  dispatch-Effect q =
      option_cases (λ (result : Handled × World V). Effect self q w.vehicle result.1.vehicle)
        (find_method q.method methods) (λ _. untouched)
        (λ handler found.
          subst (λ (s : World V). Effect self q w.vehicle s.vehicle) (sym (contain-world _))
            (find_method-EachRow (Leads (λ q result. Effect self q w.vehicle result.1.vehicle))
              q.method methods handler effects-EachRow found q refl))

  Tracks-EachRow : EachRow (Leads (λ q result. Tracks self x q w result)) methods
  unfolding methods m_ping m_status m_telemetry m_shutdown m_operation_get
  Tracks-EachRow =
      (λ q _. refl)
      & (λ q _. refl)
      & (λ q _. telemetry_cases (Tracks self x q w) q.params (λ _. refl))
      & (λ q _. refl)
      & (λ q _. refl)
      & (λ q m. mission_start-Tracked self x q w m)
      & (λ q _. mission_upload-Tracked self x q w)
      & (λ q _. mission_download-Tracked self x q w)
      & (λ q _. mission_clear-Tracked self x q w)
      & (λ q _. arm-Tracked self x q w)
      & (λ q _. disarm-Tracked self x q w)
      & (λ q _. mode-Tracked self x q w)
      & (λ q m. takeoff-Tracked self x q w m)
      & (λ q m. land-Tracked self x q w m)
      & (λ q m. rtl-Tracked self x q w m)
      & end

  -- Exceptions are contained, and the registry follows the handler.
  abbrev pub Served : RpcRequest → Handled × World V → Type 0
  Served q result = (result.0 ≢ escaped) × Tracks self x q w result

  contain-Served :
      (q : RpcRequest) (result : Handled × World V)
      → Tracks self x q w result
      → Served q (contain result)
  unfolding contain
  contain-Served q (answered response, s) h = (λ e. cc e, h)
  contain-Served q (escaped, s) h = (λ e. cc e, h)
  contain-Served q (started t, s) h = (λ e. cc e, h)

  -- Every request is answered, with the registry as it was, or starts an operation. It starts one
  -- only when the command was sent as the request asks and the guards allow and the vehicle
  -- accepted it; then the registry is the one that `activate` makes, with the command's kind, and
  -- the milestone is the command's. No exception of a handler is left.
  pub dispatch-Served : (q : RpcRequest) → Served q (dispatch self x (some q) w)
  unfolding dispatch
  dispatch-Served q =
      option_cases (Served q) (find_method q.method methods) (λ _. (λ e. cc e, refl))
        (λ handler found. contain-Served q (handler self x q.params w) (
          find_method-EachRow (Leads (λ q result. Tracks self x q w result)) q.method methods
            handler Tracks-EachRow found q refl))
