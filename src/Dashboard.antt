-- ===== src/Dashboard.antt =====
-- services/dashboard/internal/server: the maintainers' dashboard (server.go, api.go). A request has
-- the route that the mux finds, the value of its cookie, the query's limit and its body; the parsers
-- of JSON and of numbers are parameters. The store and the runtime are interfaces.
pub mod Approved
pub mod Gated
pub mod Relay
pub mod Statistics
use sl_open_bark.Common.{
  ℕ, String, ◌<>◌, Bool, true, false, not, ◌&&◌, ◌||◌, List, Option, none, some, if◌then◌else◌,
  ◌==◌, string_eq, leb, ltb,
}
use sl_open_bark.Common.Int.{ℤ, pos, negsuc}
use sl_open_bark.Common.Lists.{length}
use sl_open_bark.Common.Result.{Result, ok, err, Action, pure, ◌>>=◌}
use sl_open_bark.Store.Models.{Server, AuditEntry, Approval}
use sl_open_bark.Store.Db.{Db, StoreError}
use sl_open_bark.Store.Registry.{list_servers, set_server_lifecycle, set_server_enabled}
use sl_open_bark.Store.Governance.{list_audit, list_pending_approvals, decide_approval}
use sl_open_bark.Dashboard.Relay.{
  Method, get_method, post_method, Reply, Http, Client, configured, relay,
}
use sl_open_bark.Dashboard.Statistics.{Stats, stats_of}

pub record Store : Type 1 where
  pub State : Type 0
  pub list_servers : Action State StoreError (List Server)
  pub set_server_lifecycle : String → String → Action State StoreError (Unit {0})
  pub set_server_enabled : String → Bool → Action State StoreError (Unit {0})
  pub list_audit : ℕ → Action State StoreError (List AuditEntry)
  pub list_pending_approvals : Action State StoreError (List Approval)
  pub decide_approval : String → String → String → Action State StoreError Approval

abbrev pub repository : Store
repository = record {
  State = Db;
  list_servers = list_servers;
  set_server_lifecycle = set_server_lifecycle;
  set_server_enabled = set_server_enabled;
  list_audit = list_audit;
  list_pending_approvals = list_pending_approvals;
  decide_approval = decide_approval;
}

pub record Runtime : Type 1 where
  pub State : Type 0
  pub configured : Bool
  pub relay : Method → String → Option String → State → Reply × State

abbrev pub runtime_over : Http → Client → Runtime
runtime_over H c = record { State = H.State; configured = configured c; relay = relay H c }

pub record Decision : Type 0 where
  pub status : String
  pub decided_by : String

-- What encoding/json reads of a body, none for its errors, and `strconv.Atoi`. A login's token is ""
-- where there is none.
pub record Decoder : Type 0 where
  pub login_token : String → String
  pub lifecycle : String → Option String
  pub enabled : String → Option Bool
  pub decision : String → Option Decision
  pub atoi : String → Option ℤ

pub data Route : Type 0 where
  healthz login me stats_route registry_route audit_route approvals_route submit_route : Route
  lifecycle_route enabled_route decide_route task_route approve_route : String → Route
  static : Route

pub record Request : Type 0 where
  pub route : Route
  pub cookie : Option String
  pub limit : String
  pub body : String

pub data Response : Type 0 where
  healthy : Response
  page : Response
  logged_in : String → Response
  session : Bool → Bool → Bool → Response
  statistics : Stats → Response
  servers : List Server → Response
  updated : Response
  entries : List AuditEntry → Response
  approvals : List Approval → Response
  decided : Approval → Response
  relayed : ℕ → String → Response
  problem : ℕ → String → Response
  store_problem : StoreError → Response

abbrev pub dev_mode : String → Bool
dev_mode token = token == ""

abbrev cookie_is : String → Option String → Bool
cookie_is token none = false
cookie_is token (some c) = c == token

unfoldable pub authed : String → Request → Bool
authed token r = if dev_mode token then true else cookie_is token r.cookie

abbrev in_limit : ℕ → Bool
in_limit n = ltb 0 n && leb n 500

abbrev limit_or : Option ℤ → ℕ
limit_or none = 100
limit_or (some (negsuc n)) = 100
limit_or (some (pos n)) = if in_limit n then n else 100

module _ (S : Store) (R : Runtime) (D : Decoder) where
  -- What the handlers change.
  pub record Console : Type 0 where
    pub store : S.State
    pub runtime : R.State

  abbrev pub Handler : Type 0
  Handler = Console → Response × Console

  abbrev answered :
      {A : Type 0} → (A → Response) → Console → Result StoreError A × S.State → Response × Console
  answered f c (ok a, s) = (f a, record c { store = s })
  answered f c (err e, s) = (store_problem e, record c { store = s })

  -- A handler that answers with what a call of the store returns.
  abbrev pub ask : {A : Type 0} → Action S.State StoreError A → (A → Response) → Handler
  ask m f c = answered f c (m c.store)

  abbrev pub with_body : {A : Type 0} → Option A → (A → Handler) → Handler
  with_body none f c = (problem 400 "bad request", c)
  with_body (some a) f c = f a c

  pub handle_login : String → Request → Handler
  handle_login token r c =
      if dev_mode token || D.login_token r.body == token
      then (logged_in token, c)
      else (problem 401 "invalid token", c)

  pub handle_me : String → Request → Handler
  unfolding authed
  handle_me token r c = (session (authed token r) (dev_mode token) R.configured, c)

  pub handle_stats : ℕ → Handler
  handle_stats now =
      ask
        (do
          registry ← S.list_servers
          audit ← S.list_audit 500
          pending ← S.list_pending_approvals
          pure (stats_of now registry audit (length pending) R.configured))
        statistics

  pub handle_registry : Handler
  handle_registry = ask S.list_servers servers

  pub handle_lifecycle : String → Request → Handler
  handle_lifecycle name r =
      with_body (D.lifecycle r.body)
        (λ lifecycle. ask (S.set_server_lifecycle name lifecycle) (λ _. updated))

  pub handle_enabled : String → Request → Handler
  handle_enabled name r =
      with_body (D.enabled r.body)
        (λ enabled. ask (S.set_server_enabled name enabled) (λ _. updated))

  pub handle_audit : Request → Handler
  handle_audit r =
      ask (S.list_audit (if r.limit == "" then 100 else limit_or (D.atoi r.limit))) entries

  pub handle_approvals : Handler
  handle_approvals = ask S.list_pending_approvals approvals

  unfoldable pub handle_decide : String → Request → Handler
  handle_decide id r =
      with_body (D.decision r.body) (λ d. ask (S.decide_approval id d.status d.decided_by) decided)

  -- `if err != nil && len(out) == 0`
  abbrev relay_response : Option String → Reply → Response
  relay_response none reply = relayed reply.code reply.out
  relay_response (some e) reply =
      if reply.out == "" then problem 502 e else relayed reply.code reply.out

  abbrev relay_answer : Console → Reply × R.State → Response × Console
  relay_answer c (reply, s) = (relay_response reply.error reply, record c { runtime = s })

  pub proxy_runtime : Method → String → Option String → Handler
  proxy_runtime method path body c =
      if not R.configured
      then (problem 503 "runtime not configured", c)
      else relay_answer c (R.relay method path body c.runtime)

  pub handle_submit_task : Request → Handler
  unfolding proxy_runtime
  handle_submit_task r = proxy_runtime post_method "/tasks" (some r.body)

  pub handle_get_task : String → Handler
  unfolding proxy_runtime
  handle_get_task id = proxy_runtime get_method ("/tasks/" <> id) none

  pub handle_approve_task : String → Request → Handler
  unfolding proxy_runtime
  handle_approve_task id r =
      proxy_runtime post_method ("/tasks/" <> (id <> "/approve")) (some r.body)

  unfoldable pub auth : String → Request → Handler → Handler
  unfolding authed
  auth token r next c = if not (authed token r) then (problem 401 "unauthorized", c) else next c

  abbrev routed : ℕ → String → Request → Route → Handler
  routed now token r healthz c = (healthy, c)
  routed now token r static c = (page, c)
  routed now token r login c = handle_login token r c
  routed now token r me c = handle_me token r c
  routed now token r stats_route c = auth token r (handle_stats now) c
  routed now token r registry_route c = auth token r handle_registry c
  routed now token r (lifecycle_route name) c = auth token r (handle_lifecycle name r) c
  routed now token r (enabled_route name) c = auth token r (handle_enabled name r) c
  routed now token r audit_route c = auth token r (handle_audit r) c
  routed now token r approvals_route c = auth token r handle_approvals c
  routed now token r (decide_route id) c = auth token r (handle_decide id r) c
  routed now token r submit_route c = auth token r (handle_submit_task r) c
  routed now token r (task_route id) c = auth token r (handle_get_task id) c
  routed now token r (approve_route id) c = auth token r (handle_approve_task id r) c

  unfoldable pub handler : ℕ → String → Request → Handler
  unfolding auth handle_login handle_me handle_stats handle_registry handle_lifecycle handle_enabled
      handle_audit handle_approvals handle_decide handle_submit_task handle_get_task
      handle_approve_task
  handler now token r c = routed now token r r.route c
