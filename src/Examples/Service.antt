-- ===== src/Examples/Service.antt =====
-- The runtime over HTTP, where a task is submitted and then looked at, and from the command line.
use sl_open_bark.Common.{
  String, ◌<>◌, true, false, List, [], ◌∷◌, some, ◌↔◌, ◌≡◌, ◌≢◌, refl, string_eq,
}
use sl_open_bark.Common.Dict.{lookup, insert}
use sl_open_bark.Common.Result.{ok, err}
use sl_open_bark.Runtime.{submitted, snapshot}
use sl_open_bark.Runtime.Spec.{Files, Recipe, RunSpec, TaskRequest, build_spec}
use sl_open_bark.Runtime.Spec.Built.{Built, build_spec-Built}
use sl_open_bark.Runtime.Cli.{parse_args, out_of_range}
use sl_open_bark.Runtime.Cli.Dangling.{Dangling, parse_args-Dangling}
use sl_open_bark.Runtime.Service.{
  Server, Draw, Request, submit_route, get_route, shown, handler, idle, later, request,
}
use sl_open_bark.Runtime.Service.Served.{Presented, handler-Presented}

abbrev screening : Recipe
screening = record {
  title = "Screen reimbursements";
  owner = "finance";
  model = "";
  instructions = "Screen each request.";
}

abbrev files : Files
files = record {
  exists = λ path. true;
  read = λ path. ok "yaml";
  parse = λ raw. ok screening;
  clean = λ path. path;
  join = λ a b. a <> ("/" <> b);
}

abbrev server : Server
server = record {
  token = "secret";
  models = record { default = "small"; escalation = "large" };
  recipes_dir = "recipes";
}

abbrev task : TaskRequest
task = record {
  recipe_id = "finance/screen-reimbursement";
  inline_goal = "";
  params = [];
  identity = "slack:U1";
  committee = "finance";
  hard_task = true;
}

abbrev draw : Draw
draw = record { id = "t1"; sees_end = false }

abbrev submission : Request
submission = record { route = submit_route (some task); authorization = "Bearer secret" }

abbrev poll : Request
poll = record { route = get_route "t1"; authorization = "Bearer secret" }

abbrev spec : RunSpec
spec = record {
  goal = "Screen reimbursements";
  instructions = "Screen each request.";
  model = "large";
  identity = "slack:U1";
  committee = "finance";
  params = [];
}

-- A hard task takes the stronger model.
hard : build_spec files server.models "recipes" task ≡ ok spec
unfolding build_spec string_eq
hard = refl

polled :
    (handler files server draw poll (handler files server draw submission []).1).0
    ≡ shown (snapshot submitted)
unfolding handler build_spec lookup insert snapshot string_eq
polled = refl

handler-Presented_example :
    (server.token ≢ "")
    × (poll.authorization ≡ ("Bearer " <> server.token))
    × Presented (snapshot submitted).status (snapshot submitted)
handler-Presented_example =
    handler-Presented files server (handler files server draw submission []).1 draw poll
      (snapshot submitted) (later [] _ idle (request draw submission)) polled

build_spec-Built_example : Built files server.models "recipes" task spec
build_spec-Built_example = build_spec-Built files server.models "recipes" task spec hard

abbrev unfinished : List String
unfinished = "--goal" ∷ "greet" ∷ "--committee" ∷ []

parse_args-Dangling_example : (parse_args unfinished ≡ err out_of_range) ↔ Dangling unfinished
parse_args-Dangling_example = parse_args-Dangling unfinished

panics : parse_args unfinished ≡ err out_of_range
unfolding parse_args string_eq
panics = refl

parsed :
    parse_args ("--hard" ∷ "month=may" ∷ "finance/close" ∷ [])
    ≡ ok (record {
      recipe_id = "finance/close";
      inline_goal = "";
      params = ("month", "may") ∷ [];
      identity = "cli";
      committee = "";
      hard_task = true;
    })
unfolding parse_args insert string_eq
parsed = refl
