-- ===== src/Slack/Client.antt =====
-- services/slack-gateway/internal/runtimeclient/client.go: the client of the runtime's task API. The
-- HTTP library and the decoder of the answers' JSON are parameters.
use sl_open_bark.Common.{
  ℕ, String, ◌<>◌, Bool, not, List, Option, none, some, if◌then◌else◌, ◌==◌, string_eq, leb,
}
use sl_open_bark.Common.Result.{Result, ok, err}

pub record SubmitBody : Type 0 where
  pub inline_goal : String
  pub recipe_id : String
  pub identity : String
  pub committee : String
  pub hard_task : Bool

pub record Event : Type 0 where
  pub kind : String
  pub text : String
  pub tool : String
  pub approval_id : String

pub record Pending : Type 0 where
  pub tool : String
  pub approval_id : String

pub record TaskResult : Type 0 where
  pub output : String
  pub audit_ref : String

pub record Snapshot : Type 0 where
  pub status : String
  pub events : List Event
  pub pending : Option Pending
  pub result : Option TaskResult

-- The errors, with the messages that the libraries give.
pub data ClientError : Type 0 where
  not_configured : ClientError
  transport_failed : String → ClientError
  bad_status : ℕ → ClientError
  bad_json : String → ClientError
  refused : String → ClientError

pub data Method : Type 0 where
  get_method post_method : Method

-- The bodies that are encoded to JSON.
pub data Payload : Type 0 where
  no_payload : Payload
  submit_payload : SubmitBody → Payload
  approve_payload : String → Bool → String → Payload

pub record HttpRequest : Type 0 where
  pub method : Method
  pub url : String
  pub payload : Payload
  pub authorization : Option String

pub record HttpResponse : Type 0 where
  pub status : ℕ
  pub body : String

-- What `Submit` decodes.
pub record Submitted : Type 0 where
  pub task_id : String
  pub error : String

-- `send` is `NewRequestWithContext` and `Do`; an error is the message of either.
pub record Http : Type 1 where
  pub State : Type 0
  pub send : HttpRequest → State → Result String HttpResponse × State
  pub decode_submitted : String → Result String Submitted
  pub decode_snapshot : String → Result String Snapshot

pub record Client : Type 0 where
  pub base_url : String
  pub token : String

unfoldable pub configured : Client → Bool
configured c = not (c.base_url == "")

abbrev bearer : String → Option String
bearer token = if token == "" then none else some ("Bearer " <> token)

abbrev pub request_to : Client → Method → String → Payload → HttpRequest
request_to c method path payload = record {
  method = method;
  url = c.base_url <> path;
  payload = payload;
  authorization = bearer c.token;
}

module _ (H : Http) where
  abbrev decoded : {A : Type 0} → Result String A → Result ClientError A
  decoded (ok a) = ok a
  decoded (err e) = err (bad_json e)

  abbrev answer_of :
      {A : Type 0}
      → (String → Result String A)
      → Result String HttpResponse × H.State
      → Result ClientError A × H.State
  answer_of decode (err e, s) = (err (transport_failed e), s)
  answer_of decode (ok r, s) =
      (if leb 300 r.status then err (bad_status r.status) else decoded (decode r.body), s)

  -- `do`, with the decoder of `out`
  abbrev call :
      {A : Type 0}
      → (String → Result String A)
      → Client
      → Method
      → String
      → Payload
      → H.State
      → Result ClientError A × H.State
  call decode c method path payload s =
      if configured c
      then answer_of decode (H.send (request_to c method path payload) s)
      else (err not_configured, s)

  abbrev task_id_of : Result ClientError Submitted × H.State → Result ClientError String × H.State
  task_id_of (err e, s) = (err e, s)
  task_id_of (ok out, s) =
      (if out.task_id == "" then err (refused out.error) else ok out.task_id, s)

  unfoldable pub submit : Client → SubmitBody → H.State → Result ClientError String × H.State
  unfolding configured
  submit c body s =
      task_id_of (call H.decode_submitted c post_method "/tasks" (submit_payload body) s)

  unfoldable pub get : Client → String → H.State → Result ClientError Snapshot × H.State
  unfolding configured
  get c task_id s = call H.decode_snapshot c get_method ("/tasks/" <> task_id) no_payload s

  abbrev ignore_body : String → Result String (Unit {0})
  ignore_body body = ok tt

  -- A decision is sent with no value to decode.
  unfoldable pub approve :
      Client → String → String → Bool → String → H.State → Result ClientError (Unit {0}) × H.State
  unfolding configured
  approve c task_id approval_id granted by s =
      call ignore_body c post_method ("/tasks/" <> (task_id <> "/approve"))
        (approve_payload approval_id granted by) s
