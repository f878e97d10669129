-- ===== src/Gateway/Policy/Delivered.antt =====
-- A gateway over HTTP: what stands behind a call that succeeds.
use sl_open_bark.Common.{
  ℕ, String, ◌<>◌, ◌<◌, Option, none, some, if◌then◌else◌, ◌==◌, string_eq, ◌≡◌, ◌≢◌, ◌⊎◌, inl, inr,
  refl, ap, sym, arith,
}
use mathlib.Core.Path.{subst}
use sl_open_bark.Common.Result.{Result, ok, err, >>=-ok, Result-cases}
use sl_open_bark.Store.Models.{Json, object, end_members, RawMessage, Server, Tool, ToolBinding}
use sl_open_bark.Store.Db.{Db}
use sl_open_bark.Gateway.Policy.{
  CallRequest, CallResult, GatewayError, World, Gateway, repository, call, check_rate, resolve,
  check_authorized, gate, proxy, send, audit, outcome, answered,
}
use sl_open_bark.Gateway.Policy.Cleared.{Cleared, checks-Cleared}
use sl_open_bark.Gateway.Policy.Gate.{check_rate-store}
use sl_open_bark.Gateway.Proxy.{
  JsonRpcResponse, RpcError, HttpRequest, HttpResponse, Http, requested, request_of, respond, sent,
  answer_of, decoded, result_of, over_http,
}

module _ (H : Http) (token : String) where
  -- The arguments in a request: those of the call, or an empty object where it has none.
  abbrev pub Carries : RawMessage → Json → Type 0
  Carries RawMessage.empty arguments = arguments ≡ object end_members
  Carries (RawMessage.document j) arguments = arguments ≡ j
  Carries (RawMessage.malformed bytes) arguments = ⊥

  -- A request to the server's endpoint, to call the tool of this name.
  pub record Posts (server : Server) (tool : Tool) (args : RawMessage) (q : HttpRequest)
      : Type 0 where
    pub to : q.url ≡ server.endpoint
    pub calls : q.body.method ≡ "tools/call"
    pub names : q.body.name ≡ tool.name
    pub carries : Carries args q.body.arguments
    pub bearer :
        ((token ≡ "") × (q.authorization ≡ none))
        ⊎ ((token ≢ "") × (q.authorization ≡ some ("Bearer " <> token)))

  -- The request was sent, and the answer is of a status below 300 and has the result and no error.
  abbrev pub Delivered : Server → Tool → RawMessage → RawMessage → Type 0
  Delivered server tool args output =
      (q : HttpRequest) × Posts server tool args q
      × ((r : HttpResponse) × (H.send q ≡ ok r)
          × (r.status < 300)
          × (H.decode r.body ≡ ok (record { result = output; error = none })))

  bearer_lem :
      (q : Option String)
      → q ≡ (if token == "" then none else some ("Bearer " <> token))
      → ((token ≡ "") × (q ≡ none)) ⊎ ((token ≢ "") × (q ≡ some ("Bearer " <> token)))
  bearer_lem q e = ground (arith, e)

  requested-Posts :
      (server : Server) (tool : Tool) (args : RawMessage) (j : Json)
      → Carries args j
      → Posts server tool args (requested token server tool j)
  requested-Posts server tool args j carries = record {
    to = refl;
    calls = refl;
    names = refl;
    carries = carries;
    bearer = bearer_lem _ refl;
  }

  sent_is : (q p : HttpRequest) → ◌≡◌ {A = Result String HttpRequest} (ok p) (ok q) → p ≡ q
  sent_is q p h = cc

  request_of-Posts :
      (server : Server) (tool : Tool) (args : RawMessage) (q : HttpRequest)
      → request_of token server tool args ≡ ok q
      → Posts server tool args q
  unfolding request_of
  request_of-Posts server tool RawMessage.empty q h =
      subst (Posts server tool RawMessage.empty) (sent_is q _ h)
        (requested-Posts server tool RawMessage.empty (object end_members) refl)
  request_of-Posts server tool (RawMessage.document j) q h =
      subst (Posts server tool (RawMessage.document j)) (sent_is q _ h)
        (requested-Posts server tool (RawMessage.document j) j refl)
  request_of-Posts server tool (RawMessage.malformed bytes) q h = cc

  result_of-ok :
      (rpc : JsonRpcResponse) (e : Option RpcError) (output : RawMessage)
      → rpc.error ≡ e
      → result_of H rpc e ≡ ok output
      → rpc ≡ record { result = output; error = none }
  result_of-ok rpc none output same h =
      let out : rpc.result ≡ output = cc in rw (sym out, sym same) refl
  result_of-ok rpc (some e) output same h = cc

  decoded-ok :
      (r : Result String JsonRpcResponse) (output : RawMessage)
      → decoded H r ≡ ok output
      → r ≡ ok (record { result = output; error = none })
  decoded-ok (ok rpc) output h = ap ok (result_of-ok rpc rpc.error output refl h)
  decoded-ok (err e) output h = cc

  abbrev Answered : Result String HttpResponse → RawMessage → Type 0
  Answered answer output =
      (r : HttpResponse) × (answer ≡ ok r)
      × (r.status < 300)
      × (H.decode r.body ≡ ok (record { result = output; error = none }))

  answer_of-ok :
      (server : Server) (answer : Result String HttpResponse) (output : RawMessage)
      → answer_of H server answer ≡ ok output
      → Answered answer output
  answer_of-ok server (err e) output h = cc
  answer_of-ok server (ok r) output h =
      let (early, done) : (r.status < 300) × (decoded H (H.decode r.body) ≡ ok output) =
        ground arith in
      (r, refl, early, decoded-ok (H.decode r.body) output done)

  sent-Delivered :
      (server : Server) (q : Result String HttpRequest) (output : RawMessage)
      → sent H server q ≡ ok output
      → (p : HttpRequest) × (q ≡ ok p) × Answered (H.send p) output
  sent-Delivered server (ok q) output h = (q, refl, answer_of-ok server (H.send q) output h)
  sent-Delivered server (err e) output h = cc

  respond-Delivered :
      (server : Server) (tool : Tool) (args output : RawMessage)
      → respond H token server tool args ≡ ok output
      → Delivered server tool args output
  unfolding respond
  respond-Delivered server tool args output h =
      let (q, e, answer) = sent-Delivered server (request_of token server tool args) output h in
      (q, request_of-Posts server tool args q e, answer)

  module _ (redact : RawMessage → RawMessage) (world : World) (req : CallRequest) where
    abbrev over : World
    over = over_http H token world

    abbrev output_of : Result GatewayError CallResult → Result String RawMessage
    output_of (ok x) = ok x.output
    output_of (err e) = err ""

    answered-ok :
        (id : ℕ) (r : Result String RawMessage) (g : Gateway repository) (x : CallResult)
        → (answered repository redact id r g).0 ≡ ok x
        → r ≡ ok x.output
    answered-ok id (ok output) g x h = ap output_of h
    answered-ok id (err e) g x h = cc

    proxy-ok :
        (b : ToolBinding) (g : Gateway repository) (x : CallResult)
        → (proxy repository redact over req b g).0 ≡ ok x
        → respond H token b.server b.tool req.args ≡ ok x.output
    unfolding proxy
    proxy-ok b g x h =
        let answer = respond H token b.server b.tool req.args in
        let (id, written, h₁) =
          >>=-ok (λ id. answered repository redact id answer)
            (audit repository redact over req (outcome repository redact answer))
            (send repository redact b.server b.tool req.args g).1 x h in
        answered-ok id answer _ x h₁

    -- What stands behind a call that returns `output`.
    abbrev pub Backed : Gateway repository → RawMessage → Type 0
    Backed g output =
        (b : ToolBinding) × Cleared g.store.tables req b × Delivered b.server b.tool req.args output

    call-Backed :
        (g : Gateway repository) (x : CallResult)
        → (call repository redact over req g).0 ≡ ok x
        → Backed g x.output
    unfolding call
    call-Backed g x h =
        let (a₁, h₁, k₁) = >>=-ok _ (check_rate repository redact over req) g x h in
        let g₁ = (check_rate repository redact over req g).1 in
        let (b, h₂, k₂) = >>=-ok _ (resolve repository redact over req) g₁ x k₁ in
        let g₂ = (resolve repository redact over req g₁).1 in
        let check = check_authorized repository redact over req b.server in
        let (a₃, h₃, k₃) = >>=-ok _ check g₂ x k₂ in
        let (a₄, h₄, k₄) = >>=-ok _ (gate repository redact over req b.tool) (check g₂).1 x k₃ in
        (
          b,
          checks-Cleared redact over req g.store.tables g₁ b a₃ a₄
              (ap (λ (d : Db). d.tables) (check_rate-store repository redact over req g a₁ h₁)) h₂
              h₃ h₄,
          respond-Delivered b.server b.tool req.args x.output (proxy-ok b _ x k₄),
        )

    -- Where the gateway calls its servers with the HTTP caller: a call fails, or it succeeds, and then
    -- the tables hold a server and a tool of it under the names of the request and clear them for this
    -- call; a request to the server's endpoint was sent, for a `tools/call` of the tool's name with the
    -- call's arguments (an empty object if it has none), and with the bearer token of the gateway's
    -- client exactly if that is not blank; the server answered with a status below 300 and no error, and
    -- the call returns the result of this answer.
    pub call-Delivered :
        (g : Gateway repository)
        → ((e : GatewayError) × ((call repository redact over req g).0 ≡ err e))
          ⊎ ((x : CallResult) × ((call repository redact over req g).0 ≡ ok x) × Backed g x.output)
    call-Delivered g = elim (Result-cases (call repository redact over req g).0) [
      | inl (e, h) ↦ inl (e, h)
      | inr (x, h) ↦ inr (x, h, call-Backed g x h)
    ]
