-- ===== src/Gateway/Policy.antt =====
-- gateway/internal/policy/gateway.go: authorizes, gates, proxies and audits a tool call.
pub mod Approved
pub mod Gate
pub mod Audited
pub mod Cleared
pub mod Listed
pub mod Admitted
pub mod Registers
pub mod Decided
pub mod Delivered
use sl_open_bark.Common.{
  ℕ, zero, suc, String, Bool, true, false, not, ◌&&◌, ◌||◌, List, [], ◌∷◌, ◌++◌, ◌<>◌, Option, none,
  some, if◌then◌else◌, ◌==◌, contains, string_eq,
}
use sl_open_bark.Common.Result.{Result, ok, err, Action, pure, raise, continue_with, ◌>>=◌, ◌>>◌}
use sl_open_bark.Store.Models.{
  RawMessage, Server, ServerInput, Tool, ToolBinding, VisibleTool, Approval, AuditInput, AuditEntry,
  lifecycle_approved,
}
use sl_open_bark.Store.Db.{Db, StoreError, not_found}
use sl_open_bark.Store.Governance.{
  create_approval, list_approvals_by_session, write_audit, status_approved,
}
use sl_open_bark.Store.Registry.{register_server, resolve_tool, list_visible_tools}
use sl_open_bark.Gateway.Limits.{Arithmetic, Limiter, allow}

pub record Identity : Type 0 where
  pub subject : String
  pub committees : List String
  pub is_agent : Bool

pub record CallRequest : Type 0 where
  pub identity : Identity
  pub session_id : String
  pub server_name : String
  pub tool_name : String
  pub args : RawMessage

pub record CallResult : Type 0 where
  pub output : RawMessage
  pub audit_id : ℕ

-- `store_failed` wraps an error of the store, and `downstream` one of the called server, with the
-- id of the call's audit row.
pub data GatewayError : Type 0 where
  unknown_tool unauthorized rate_limited : GatewayError
  approval_required : String → String → GatewayError
  store_failed : StoreError → GatewayError
  downstream : String → ℕ → GatewayError

-- The persistence that the gateway needs.
pub record Store : Type 1 where
  pub State : Type 0
  pub register_server : ServerInput → Action State StoreError Server
  pub list_visible_tools : List String → Action State StoreError (List VisibleTool)
  pub resolve_tool : String → String → Action State StoreError ToolBinding
  pub create_approval : String → String → RawMessage → Action State StoreError Approval
  pub list_approvals_by_session : String → Action State StoreError (List Approval)
  pub write_audit : AuditInput → Action State StoreError AuditEntry

-- `*store.Repository` satisfies it.
abbrev pub repository : Store
repository = record {
  State = Db;
  register_server = register_server;
  list_visible_tools = list_visible_tools;
  resolve_tool = resolve_tool;
  create_approval = create_approval;
  list_approvals_by_session = list_approvals_by_session;
  write_audit = write_audit;
}

-- A call that was proxied to a downstream server.
pub record Proxied : Type 0 where
  pub server : Server
  pub tool : Tool
  pub args : RawMessage

-- `rateKey`: the first committee, or else the subject
abbrev first_or : String → List String → String
first_or subject [] = subject
first_or subject (c ∷ cs) = c

pub rate_key : Identity → String
rate_key id = first_or id.subject id.committees

-- One of the committees is granted.
abbrev pub shares : List String → List String → Bool
shares [] granted = false
shares (c ∷ cs) granted = contains granted c || shares cs granted

unfoldable pub authorized : Server → Identity → Bool
authorized s id =
    if not (s.lifecycle == lifecycle_approved) || not s.enabled
    then false
    else shares id.committees s.committees

-- Some approval is of the tool, and approved.
abbrev pub has_approved : String → List Approval → Bool
has_approved tool [] = false
has_approved tool (a ∷ as') =
    (a.tool == tool && a.status == status_approved) || has_approved tool as'

-- What a call reads of the world: the arithmetic of the machine, the clocks of the two limits, the
-- milliseconds that have passed when it writes its audit row, and the answers of the downstream servers.
pub record World : Type 0 where
  pub float : Arithmetic
  pub now : ℕ
  pub later : ℕ
  pub latency_ms : ℕ
  pub respond : Server → Tool → RawMessage → Result String RawMessage

-- The state that calls change: the store, the limiter's buckets, and the calls that were proxied.
pub record Gateway (S : Store) : Type 0 where
  pub store : S.State
  pub limiter : Option Limiter
  pub proxied : List Proxied

module _ (S : Store) (redact : RawMessage → RawMessage) where
  abbrev pub Handler : Type 0 → Type 0
  Handler A = Action (Gateway S) GatewayError A

  abbrev wrap :
      {A : Type 0} → Gateway S → Result StoreError A × S.State → Result GatewayError A × Gateway S
  wrap g (ok a, s) = (ok a, record g { store = s })
  wrap g (err e, s) = (err (store_failed e), record g { store = s })

  -- A call of the store, with its error wrapped.
  abbrev pub of_store : {A : Type 0} → Action S.State StoreError A → Handler A
  of_store m g = wrap g (m g.store)

  abbrev pub entry : World → CallRequest → String → AuditInput
  entry world req result = record {
    actor = req.identity.subject;
    tool = req.server_name <> "/" <> req.tool_name;
    args_redacted = redact req.args;
    result = result;
    latency_ms = world.latency_ms;
  }

  abbrev pub audit_written :
      Gateway S → Result StoreError AuditEntry × S.State → Result GatewayError ℕ × Gateway S
  audit_written g (ok e, s) = (ok e.id, record g { store = s })
  audit_written g (err e, s) = (ok 0, record g { store = s })

  -- The id of the audit row, or 0 if it could not be written.
  pub audit : World → CallRequest → String → Handler ℕ
  audit world req result g = audit_written g (S.write_audit (entry world req result) g.store)

  pub has_approval : String → String → Handler Bool
  has_approval session_id tool = if session_id == "" then pure false else do
    approvals ← of_store (S.list_approvals_by_session session_id)
    pure (has_approved tool approvals)

  -- A denial is audited and returned.
  abbrev pub deny : {A : Type 0} → World → CallRequest → String → GatewayError → Handler A
  deny world req reason e = audit world req reason >> raise e

  abbrev limited : Gateway S → Bool × Limiter → Result GatewayError Bool × Gateway S
  limited g (allowed, l) = (ok allowed, record g { limiter = some l })

  abbrev pub ask_limiter : World → String → Option Limiter → Handler Bool
  ask_limiter world key none g = (ok true, g)
  ask_limiter world key (some l) g = limited g (allow world.float l key world.now world.later)

  -- The rate limit, before any work.
  pub check_rate : World → CallRequest → Handler Unit
  unfolding rate_key
  check_rate world req g =
      (do
        allowed ← ask_limiter world (rate_key req.identity) g.limiter
        if allowed then pure tt else deny world req "denied: rate limited" rate_limited)
        g

  abbrev resolved :
      World
      → CallRequest
      → Gateway S
      → Result StoreError ToolBinding × S.State
      → Result GatewayError ToolBinding × Gateway S
  resolved world req g (ok b, s) = (ok b, record g { store = s })
  resolved world req g (err not_found, s) =
      deny world req "denied: unknown tool" unknown_tool (record g { store = s })
  resolved world req g (err e, s) = (err (store_failed e), record g { store = s })

  pub resolve : World → CallRequest → Handler ToolBinding
  resolve world req g = resolved world req g (S.resolve_tool req.server_name req.tool_name g.store)

  pub check_authorized : World → CallRequest → Server → Handler Unit
  check_authorized world req server =
      if authorized server req.identity
      then pure tt
      else deny world req "denied: unauthorized" unauthorized

  -- A pending approval is recorded, and the caller told its id.
  pub ask_approval : World → CallRequest → Handler Unit
  ask_approval world req = do
    ap ← of_store (S.create_approval req.session_id req.tool_name (redact req.args))
    deny world req "gated: awaiting approval" (approval_required ap.id req.tool_name)

  pub require_approval : World → CallRequest → Handler Unit
  unfolding has_approval ask_approval
  require_approval world req = do
    approved ← has_approval req.session_id req.tool_name
    if approved then pure tt else ask_approval world req

  pub gate : World → CallRequest → Tool → Handler Unit
  unfolding require_approval
  gate world req tool = if tool.impact == "high" then require_approval world req else pure tt

  abbrev outcome : Result String RawMessage → String
  outcome (ok output) = "ok"
  outcome (err e) = "error: " <> e

  abbrev answered : ℕ → Result String RawMessage → Handler CallResult
  answered id (ok output) = pure (record { output = output; audit_id = id })
  answered id (err e) = raise (downstream e id)

  abbrev pub send : Server → Tool → RawMessage → Handler Unit
  send server tool args g =
      let call : Proxied = record { server = server; tool = tool; args = args } in
      (ok tt, record g { proxied = g.proxied ++ call ∷ [] })

  -- The call downstream, and its audit row.
  pub proxy : World → CallRequest → ToolBinding → Handler CallResult
  proxy world req b = do
    send b.server b.tool req.args
    id ← audit world req (outcome (world.respond b.server b.tool req.args))
    answered id (world.respond b.server b.tool req.args)

  pub call : World → CallRequest → Handler CallResult
  call world req = do
    check_rate world req
    binding ← resolve world req
    check_authorized world req binding.server
    gate world req binding.tool
    proxy world req binding

  abbrev pub registration : ServerInput → AuditInput
  registration input = record {
    actor = "registry";
    tool = "register:" <> input.name;
    args_redacted = RawMessage.empty;
    result = "ok";
    latency_ms = 0;
  }

  audit_registration : ServerInput → Handler ℕ
  audit_registration input g = audit_written g (S.write_audit (registration input) g.store)

  -- `Register` audits the change; its audit row may fail silently.
  unfoldable pub register : ServerInput → Handler Server
  unfolding audit_registration
  register input = do
    server ← of_store (S.register_server input)
    audit_registration input
    pure server

  unfoldable pub list_tools : Identity → Handler (List VisibleTool)
  list_tools id = of_store (S.list_visible_tools id.committees)
