-- ===== src/Dashboard/Relay.antt =====
-- services/dashboard/internal/runtimeclient/client.go: the relay of a request to the runtime. The
-- HTTP library is a parameter.
use sl_open_bark.Common.{
  ℕ, String, ◌<>◌, Bool, not, Option, none, some, if◌then◌else◌, ◌==◌, string_eq,
}
use sl_open_bark.Common.Result.{Result, ok, err}

pub data Method : Type 0 where
  get_method post_method : Method

pub record HttpRequest : Type 0 where
  pub method : Method
  pub url : String
  pub body : Option String
  pub authorization : Option String

-- What of the body could be read, with the error of reading it if there is one.
pub record HttpResponse : Type 0 where
  pub status : ℕ
  pub body : String
  pub read_error : Option String

-- `valid` is the error of `NewRequestWithContext`, if there is one, and `send` is `Do`.
pub record Http : Type 1 where
  pub State : Type 0
  pub valid : HttpRequest → Option String
  pub send : HttpRequest → State → Result String HttpResponse × State

-- What `Do` returns: the body, the status code and the error.
pub record Reply : Type 0 where
  pub out : String
  pub code : ℕ
  pub error : Option String

pub record Client : Type 0 where
  pub base_url : String
  pub token : String

abbrev pub configured : Client → Bool
configured c = not (c.base_url == "")

abbrev request_to : Client → Method → String → Option String → HttpRequest
request_to c method path body = record {
  method = method;
  url = c.base_url <> path;
  body = body;
  authorization = if c.token == "" then none else some ("Bearer " <> c.token);
}

module _ (H : Http) where
  abbrev replied : Result String HttpResponse × H.State → Reply × H.State
  replied (err e, s) = (record { out = ""; code = 502; error = some e }, s)
  replied (ok r, s) = (record { out = r.body; code = r.status; error = r.read_error }, s)

  abbrev sent : Option String → HttpRequest → H.State → Reply × H.State
  sent (some e) r s = (record { out = ""; code = 0; error = some e }, s)
  sent none r s = replied (H.send r s)

  unfoldable pub relay : Client → Method → String → Option String → H.State → Reply × H.State
  relay c method path body s =
      let r = request_to c method path body in
      if not (configured c)
      then (record { out = ""; code = 503; error = some "runtime not configured" }, s)
      else sent (H.valid r) r s
