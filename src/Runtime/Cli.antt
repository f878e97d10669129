-- ===== src/Runtime/Cli.antt =====
-- runtime/cmd/runtime/main.go: the command line of a single task, and its decisions.
pub mod Dangling
use Prim.Native.Char.{code}
use sl_open_bark.Common.{
  String, Bool, true, false, ◌&&◌, ◌||◌, List, [], ◌∷◌, Option, none, some, if◌then◌else◌, ◌==◌,
  string_eq, nat_eq,
}
use sl_open_bark.Common.Dict.{insert}
use sl_open_bark.Common.Result.{Result, ok, err}
use sl_open_bark.Runtime.{Event, EventKind, approval_required}
use sl_open_bark.Runtime.Spec.{TaskRequest}

-- `out_of_range` is the panic of an index behind the last argument.
pub data ArgsError : Type 0 where
  goal_needs_value no_task out_of_range : ArgsError

abbrev pub start : TaskRequest
start = record {
  recipe_id = "";
  inline_goal = "";
  params = [];
  identity = "cli";
  committee = "";
  hard_task = false;
}

-- `strings.SplitN(a, "=", 2)`, or none where the argument holds no "=".
unfoldable pub key_value : String → Option (String × String)
unfolding nat_eq
key_value String.[] = none
key_value (String.◌∷◌ c s) =
    let later = key_value s in
    if code c == b'='
    then some (String.[], s)
    else elim later [ none ↦ none | some (key, value) ↦ some (String.◌∷◌ c key, value) ]

abbrev pub with_pair : String → Option (String × String) → TaskRequest → TaskRequest
with_pair a none req = record req { recipe_id = a }
with_pair a (some (key, value)) req = record req { params = insert key value req.params }

-- An argument that stands alone.
unfoldable pub plain : String → TaskRequest → TaskRequest
unfolding key_value
plain a req =
    if a == "--hard" then record req { hard_task = true } else with_pair a (key_value a) req

unfoldable pub takes_value : String → Bool
takes_value a = a == "--goal" || a == "--committee" || a == "--identity"

unfoldable pub with_value : String → String → TaskRequest → TaskRequest
with_value a v req =
    if a == "--goal"
    then record req { inline_goal = v }
    else if a == "--committee"
    then record req { committee = v }
    else record req { identity = v }

-- The last argument: an option that wants a value has none behind it, which `--goal` looks out for.
unfoldable pub last_arg : String → TaskRequest → Result ArgsError TaskRequest
unfolding plain takes_value
last_arg a req =
    if a == "--goal"
    then err goal_needs_value
    else if takes_value a
    then err out_of_range
    else ok (plain a req)

-- The loop over the arguments.
unfoldable pub parse_loop : List String → TaskRequest → Result ArgsError TaskRequest
unfolding last_arg plain takes_value with_value
parse_loop [] req = ok req
parse_loop (a ∷ []) req = last_arg a req
parse_loop (a ∷ v ∷ rest) req =
    let valued = parse_loop rest (with_value a v req) in
    let alone = parse_loop (v ∷ rest) (plain a req) in if takes_value a then valued else alone

abbrev pub complete : Result ArgsError TaskRequest → Result ArgsError TaskRequest
complete (err e) = err e
complete (ok req) = if req.recipe_id == "" && req.inline_goal == "" then err no_task else ok req

unfoldable pub parse_args : List String → Result ArgsError TaskRequest
unfolding parse_loop
parse_args args = complete (parse_loop args start)

-- A decision that the command sends, by its arguments to `ResolveApproval`.
pub record Denial : Type 0 where
  pub approval_id : String
  pub granted : Bool
  pub decided_by : String

-- What the loop over the events sends: nobody can approve here, so each request is denied.
unfoldable pub denials : List Event → List Denial
denials [] = []
denials (e ∷ es) = elim e.kind [
  | EventKind.approval_required ↦
      record { approval_id = e.approval_id; granted = false; decided_by = "cli" } ∷ denials es
  | _ ↦ denials es
]
