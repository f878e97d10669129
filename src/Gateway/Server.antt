-- ===== src/Gateway/Server.antt =====
-- gateway/internal/server/server.go: the policy layer over HTTP. A request has the route that the
-- mux finds for its method and path, its headers, as `Header.Get` reads them, and its body as
-- encoding/json decodes it.
pub mod Guarded
use sl_open_bark.Common.{
  ℕ, String, ◌<>◌, Bool, true, false, not, ◌||◌, List, [], ◌∷◌, Option, none, some, if◌then◌else◌,
  ◌==◌, string_eq, map,
}
use sl_open_bark.Common.Lists.{filter}
use sl_open_bark.Common.Text.{split, trim_space}
use sl_open_bark.Common.Result.{Result, ok, err}
use sl_open_bark.Store.Models.{RawMessage, VisibleTool}
use sl_open_bark.Gateway.Policy.{
  Identity, CallRequest, CallResult, GatewayError, unknown_tool, unauthorized, rate_limited,
  approval_required, store_failed, downstream, Store, World, Gateway, call, list_tools,
}

pub record CallBody : Type 0 where
  pub session_id : String
  pub server : String
  pub tool : String
  pub args : RawMessage

pub data Route : Type 0 where
  healthz tools_route call_route : Route

pub record Request : Type 0 where
  pub route : Option Route
  pub header : String → String
  pub body : Option CallBody

-- What is written to the client, with the status code. `not_routed` is the mux's own answer.
pub data Response : Type 0 where
  not_routed : Response
  status_ok : Response
  problem : ℕ → String → Response
  listed : List VisibleTool → Response
  answered : RawMessage → ℕ → Response
  approval_pending : String → String → Response

abbrev pub IdentityResolver : Type 0
IdentityResolver = Request → Option Identity

abbrev pub not_blank : String → Bool
not_blank c = not (c == "")

-- The committees of a header, each trimmed, without those that are blank.
pub committees_of : String → List String
unfolding split trim_space
committees_of raw = if raw == "" then [] else filter not_blank (map trim_space (split b',' raw))

unfoldable pub header_identity : IdentityResolver
unfolding committees_of
header_identity r =
    if r.header "X-ScottyLabs-Subject" == ""
    then none
    else some (record {
      subject = r.header "X-ScottyLabs-Subject";
      committees = committees_of (r.header "X-ScottyLabs-Committees");
      is_agent = r.header "X-ScottyLabs-Agent" == "true";
    })

module _ (S : Store) (redact : RawMessage → RawMessage) where
  pub record Server : Type 0 where
    pub gw : Gateway S
    pub token : String
    pub resolve : IdentityResolver

  abbrev resolver_or : Option IdentityResolver → IdentityResolver
  resolver_or none = header_identity
  resolver_or (some resolve) = resolve

  unfoldable pub new : Gateway S → String → Option IdentityResolver → Server
  new gw token resolve = record { gw = gw; token = token; resolve = resolver_or resolve }

  abbrev pub HttpHandler : Type 0
  HttpHandler = World → Request → Server → Response × Server

  pub auth : HttpHandler → HttpHandler
  auth next world r s =
      if s.token == "" || not (r.header "Authorization" == ("Bearer " <> s.token))
      then (problem 401 "unauthorized", s)
      else next world r s

  abbrev tools_answer :
      Server → Result GatewayError (List VisibleTool) × Gateway S → Response × Server
  tools_answer s (ok tools, g) = (listed tools, record s { gw = g })
  tools_answer s (err e, g) = (problem 500 "list failed", record s { gw = g })

  abbrev tools_for : Server → Option Identity → Response × Server
  tools_for s none = (problem 401 "no identity", s)
  tools_for s (some id) = tools_answer s (list_tools S redact id s.gw)

  pub handle_tools : HttpHandler
  handle_tools world r s = tools_for s (s.resolve r)

  abbrev pub call_response : Result GatewayError CallResult → Response
  call_response (ok res) = answered res.output res.audit_id
  call_response (err unknown_tool) = problem 404 "unknown tool"
  call_response (err unauthorized) = problem 403 "unauthorized"
  call_response (err (approval_required id tool)) = approval_pending id tool
  call_response (err rate_limited) = problem 502 "call failed"
  call_response (err (store_failed e)) = problem 502 "call failed"
  call_response (err (downstream e id)) = problem 502 "call failed"

  abbrev pub call_request : Identity → CallBody → CallRequest
  call_request id body = record {
    identity = id;
    session_id = body.session_id;
    server_name = body.server;
    tool_name = body.tool;
    args = body.args;
  }

  abbrev call_answer : Server → Result GatewayError CallResult × Gateway S → Response × Server
  call_answer s (res, g) = (call_response res, record s { gw = g })

  abbrev call_for : World → Server → Option Identity → Option CallBody → Response × Server
  call_for world s none body = (problem 401 "no identity", s)
  call_for world s (some id) none = (problem 400 "bad request", s)
  call_for world s (some id) (some body) =
      call_answer s (call S redact world (call_request id body) s.gw)

  pub handle_call : HttpHandler
  handle_call world r s = call_for world s (s.resolve r) r.body

  abbrev routed : Option Route → HttpHandler
  routed none world r s = (not_routed, s)
  routed (some healthz) world r s = (status_ok, s)
  routed (some tools_route) world r s = auth handle_tools world r s
  routed (some call_route) world r s = auth handle_call world r s

  pub handler : HttpHandler
  unfolding auth handle_tools handle_call
  handler world r s = routed r.route world r s
