-- ===== src/Gateway/Proxy.antt =====
-- gateway/internal/proxy/httpcaller.go: a tool call to a downstream MCP server. The HTTP library, the
-- decoder of the answer's JSON, the text of a wrapped error and the printing of numbers are parameters.
-- The body of a request stands for the JSON-RPC object that it encodes.
use sl_open_bark.Common.{ℕ, String, ◌<>◌, Option, none, some, if◌then◌else◌, ◌==◌, string_eq, leb}
use sl_open_bark.Common.Int.{ℤ}
use sl_open_bark.Common.Result.{Result, ok, err}
use sl_open_bark.Store.Models.{Json, object, end_members, RawMessage, Server, Tool}
use sl_open_bark.Gateway.Policy.{World}

-- The version and the id are the same in all requests.
pub record JsonRpcRequest : Type 0 where
  pub method : String
  pub name : String
  pub arguments : Json

pub record RpcError : Type 0 where
  pub code : ℤ
  pub message : String

pub record JsonRpcResponse : Type 0 where
  pub result : RawMessage
  pub error : Option RpcError

pub record HttpRequest : Type 0 where
  pub url : String
  pub body : JsonRpcRequest
  pub authorization : Option String

pub record HttpResponse : Type 0 where
  pub status : ℕ
  pub body : String

-- `send` is `NewRequestWithContext` and `Do`. Like the answers of a `World`, what it returns hangs on
-- the request alone.
pub record Http : Type 0 where
  pub send : HttpRequest → Result String HttpResponse
  pub decode : String → Result String JsonRpcResponse
  pub print_status : ℕ → String
  pub print_code : ℤ → String

-- What `json.Marshal` makes of the arguments, where no bytes stand for an empty object.
abbrev arguments_of : RawMessage → Result String Json
arguments_of RawMessage.empty = ok (object end_members)
arguments_of (RawMessage.document j) = ok j
arguments_of (RawMessage.malformed text) = err ("proxy: marshal request: " <> text)

abbrev pub requested : String → Server → Tool → Json → HttpRequest
requested token server tool arguments = record {
  url = server.endpoint;
  body = record { method = "tools/call"; name = tool.name; arguments = arguments };
  authorization = if token == "" then none else some ("Bearer " <> token);
}

abbrev with_request : Result String Json → (Json → HttpRequest) → Result String HttpRequest
with_request (ok j) q = ok (q j)
with_request (err e) q = err e

unfoldable pub request_of : String → Server → Tool → RawMessage → Result String HttpRequest
request_of token server tool args = with_request (arguments_of args) (requested token server tool)

module _ (H : Http) where
  abbrev pub result_of : JsonRpcResponse → Option RpcError → Result String RawMessage
  result_of rpc none = ok rpc.result
  result_of rpc (some e) =
      err ("proxy: tool error " <> (H.print_code e.code <> (": " <> e.message)))

  abbrev pub decoded : Result String JsonRpcResponse → Result String RawMessage
  decoded (ok rpc) = result_of rpc rpc.error
  decoded (err e) = err ("proxy: decode response: " <> e)

  abbrev pub answer_of : Server → Result String HttpResponse → Result String RawMessage
  answer_of server (err e) = err ("proxy: call " <> (server.name <> (": " <> e)))
  answer_of server (ok r) =
      if leb 300 r.status
      then err ("proxy: " <> (server.name <> (" returned " <> H.print_status r.status)))
      else decoded (H.decode r.body)

  abbrev pub sent : Server → Result String HttpRequest → Result String RawMessage
  sent server (ok q) = answer_of server (H.send q)
  sent server (err e) = err e

  -- `Call`
  unfoldable pub respond : String → Server → Tool → RawMessage → Result String RawMessage
  respond token server tool args = sent server (request_of token server tool args)

-- The world of a gateway that calls its servers with the HTTP caller.
abbrev pub over_http : Http → String → World → World
over_http H token world = record world { respond = respond H token }
