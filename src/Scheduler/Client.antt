-- ===== src/Scheduler/Client.antt =====
-- services/scheduler/internal/runtimeclient/client.go: the scheduler's client of the runtime. The HTTP
-- library, the decoder of the answer's JSON and the printing of a status are parameters. What the
-- client hands to the library is recorded.
use sl_open_bark.Common.{
  ℕ, String, ◌<>◌, Bool, not, List, [], ◌∷◌, ◌++◌, Option, none, some, if◌then◌else◌, ◌==◌,
  string_eq, leb,
}
use sl_open_bark.Common.Dict.{Dict}
use sl_open_bark.Common.Result.{Result, ok, err}
use sl_open_bark.Scheduler.{Runtime}

-- What is encoded to the body of a request.
pub record SubmitBody : Type 0 where
  pub recipe_id : String
  pub committee : String
  pub params : Dict String

pub record HttpRequest : Type 0 where
  pub url : String
  pub body : SubmitBody
  pub authorization : Option String

pub record HttpResponse : Type 0 where
  pub status : ℕ
  pub body : String

-- `send` is `NewRequestWithContext` and `Do`, and `decode` gives the `task_id` of an answer; an error
-- is the text that the library gives it.
pub record Http : Type 1 where
  pub State : Type 0
  pub send : HttpRequest → State → Result String HttpResponse × State
  pub decode : String → Result String String
  pub print : ℕ → String

pub record Client : Type 0 where
  pub base_url : String
  pub token : String

unfoldable pub configured : Client → Bool
configured c = not (c.base_url == "")

unfoldable pub request_of : Client → String → String → Dict String → HttpRequest
request_of c recipe committee params = record {
  url = c.base_url <> "/tasks";
  body = record { recipe_id = recipe; committee = committee; params = params };
  authorization = if c.token == "" then none else some ("Bearer " <> c.token);
}

module _ (H : Http) where
  -- The requests that the client has handed to the library, beside the library's state.
  abbrev pub Wire : Type 0
  Wire = List HttpRequest × H.State

  abbrev decoded : Result String String → String × Option String
  decoded (ok task_id) = (task_id, none)
  decoded (err e) = ("", some e)

  abbrev answer_of : Result String HttpResponse → String × Option String
  answer_of (err e) = ("", some e)
  answer_of (ok r) =
      if leb 300 r.status
      then ("", some ("runtime: status " <> H.print r.status))
      else decoded (H.decode r.body)

  abbrev pub handed :
      List HttpRequest → Result String HttpResponse × H.State → (String × Option String) × Wire
  handed asked (r, s) = (answer_of r, (asked, s))

  unfoldable pub submit :
      Client → String → String → Dict String → Wire → (String × Option String) × Wire
  unfolding configured
  submit c recipe committee params w =
      let q = request_of c recipe committee params in
      if configured c
      then handed (w.0 ++ q ∷ []) (H.send q w.1)
      else (("", some "runtime not configured"), w)

  -- The client as the scheduler's runtime.
  abbrev pub runtime : Client → Runtime
  runtime c = record { State = Wire; submit = submit c }
