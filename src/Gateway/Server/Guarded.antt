-- ===== src/Gateway/Server/Guarded.antt =====
-- server.go: what a request has to carry before a tool is called for it.
use sl_open_bark.Common.{
  String, ◌<>◌, not, ◌||◌, List, [], ◌∷◌, ◌++◌, Option, none, some, ◌==◌, string_eq, ◌≡◌, ◌≢◌, ◌⊎◌,
  inl, inr, refl, arith, ◌∙◌, if_elim,
}
use sl_open_bark.Common.Result.{Result, ok, err}
use sl_open_bark.Store.Models.{RawMessage, ToolBinding, VisibleTool}
use sl_open_bark.Gateway.Policy.{
  Identity, World, Gateway, list_tools, GatewayError, repository, Proxied,
}
use sl_open_bark.Gateway.Policy.Cleared.{call-Cleared, Cleared}
use sl_open_bark.Gateway.Policy.Gate.{of_store-proxied}
use sl_open_bark.Gateway.Server.{
  CallBody, Route, tools_route, healthz, problem, Request, Response, Server, call_route, handler,
  call_request, auth, handle_call, handle_tools, routed, call_for, tools_for, tools_answer,
}

module _ (redact : RawMessage → RawMessage) (world : World) where
  -- The request carries the service's bearer token, which is not blank.
  abbrev pub Bearer : Request → String → Type 0
  Bearer r token = (token ≢ "") × (r.header "Authorization" ≡ ("Bearer " <> token))

  -- What the call downstream had to find: an identity, a body, and tables that clear the call.
  pub record Called (r : Request) (s : Server repository redact) (after : List Proxied)
      : Type 0 where
    pub id : Identity
    pub body : CallBody
    pub binding : ToolBinding
    pub resolved : s.resolve r ≡ some id
    pub decoded : r.body ≡ some body
    pub appended :
        after
        ≡ s.gw.proxied
          ++ record { server = binding.server; tool = binding.tool; args = body.args } ∷ []
    pub cleared : Cleared s.gw.store.tables (call_request repository redact id body) binding

  abbrev pub trace : Response × Server repository redact → List Proxied
  trace out = out.1.gw.proxied

  call_for-Called :
      (r : Request) (s : Server repository redact) (id : Option Identity) (body : Option CallBody)
      → s.resolve r ≡ id
      → r.body ≡ body
      → let after = trace (call_for repository redact world s id body) in
        (after ≡ s.gw.proxied) ⊎ Called r s after
  call_for-Called r s none body h k = inl refl
  call_for-Called r s (some id) none h k = inl refl
  call_for-Called r s (some id) (some body) h k =
      elim (call-Cleared redact world (call_request repository redact id body) s.gw) [
        | inl same ↦ inl same
        | inr (b, e, c) ↦ inr (record {
          id = id;
          body = body;
          binding = b;
          resolved = h;
          decoded = k;
          appended = e;
          cleared = c;
        })
      ]

  handle_call-Called :
      (r : Request) (s : Server repository redact)
      → let after = trace (handle_call repository redact world r s) in
        (after ≡ s.gw.proxied) ⊎ Called r s after
  unfolding handle_call
  handle_call-Called r s = call_for-Called r s (s.resolve r) r.body refl refl

  tools_answer-trace :
      (s : Server repository redact)
      (out : Result GatewayError (List VisibleTool) × Gateway repository)
      → trace (tools_answer repository redact s out) ≡ out.1.proxied
  tools_answer-trace s (ok tools, g) = refl
  tools_answer-trace s (err e, g) = refl

  list_tools-proxied :
      (id : Identity) (g : Gateway repository)
      → (list_tools repository redact id g).1.proxied ≡ g.proxied
  unfolding list_tools
  list_tools-proxied id g =
      of_store-proxied repository redact (repository.list_visible_tools id.committees) g

  tools_for-trace :
      (s : Server repository redact) (id : Option Identity)
      → trace (tools_for repository redact s id) ≡ s.gw.proxied
  tools_for-trace s none = refl
  tools_for-trace s (some id) =
      tools_answer-trace s (list_tools repository redact id s.gw) ∙ list_tools-proxied id s.gw

  handle_tools-trace :
      (r : Request) (s : Server repository redact)
      → trace (handle_tools repository redact world r s) ≡ s.gw.proxied
  unfolding handle_tools
  handle_tools-trace r s = tools_for-trace s (s.resolve r)

  abbrev pub Guarded : Request → Server repository redact → List Proxied → Type 0
  Guarded r s after =
      (after ≡ s.gw.proxied) ⊎ ((r.route ≡ some call_route) × Bearer r s.token × Called r s after)

  auth-Guarded :
      (r : Request) (s : Server repository redact)
      → r.route ≡ some call_route
      → Guarded r s (trace (auth repository redact (handle_call repository redact) world r s))
  unfolding auth
  auth-Guarded r s at_call =
      if_elim (λ (out : Response × Server repository redact). Guarded r s (trace out))
        (s.token == "" || not (r.header "Authorization" == ("Bearer " <> s.token)))
        (problem 401 "unauthorized", s) (handle_call repository redact world r s) (λ _. inl refl)
        (λ h. elim (handle_call-Called r s) [
          | inl same ↦ inl same
          | inr c ↦ inr (at_call, ground arith, c)
        ])

  auth-tools :
      (r : Request) (s : Server repository redact)
      → trace (auth repository redact (handle_tools repository redact) world r s) ≡ s.gw.proxied
  unfolding auth
  auth-tools r s =
      if_elim (λ (out : Response × Server repository redact). trace out ≡ s.gw.proxied)
        (s.token == "" || not (r.header "Authorization" == ("Bearer " <> s.token)))
        (problem 401 "unauthorized", s) (handle_tools repository redact world r s) (λ _. refl)
        (λ _. handle_tools-trace r s)

  routed-Guarded :
      (r : Request) (s : Server repository redact) (route : Option Route)
      → r.route ≡ route
      → Guarded r s (trace (routed repository redact route world r s))
  routed-Guarded r s none h = inl refl
  routed-Guarded r s (some healthz) h = inl refl
  routed-Guarded r s (some tools_route) h = inl (auth-tools r s)
  routed-Guarded r s (some call_route) h = auth-Guarded r s h

  -- A request calls no tool, or it is a POST to /call with the service's bearer token, which is not
  -- blank, an identity and a body, it calls one tool, and the tables clear that call.
  pub handler-Guarded :
      (r : Request) (s : Server repository redact)
      → Guarded r s (trace (handler repository redact world r s))
  unfolding handler
  handler-Guarded r s = routed-Guarded r s r.route refl
