-- ===== src/Runtime/Spec.antt =====
-- runtime: what a task is resolved to before it runs: its recipe (recipe.go), its model (model.go) and
-- its spec (`buildSpec` of runtime.go). The file system, the YAML parser and package filepath are
-- parameters.
pub mod Built
use sl_open_bark.Common.{
  String, ◌<>◌, Bool, false, not, ◌&&◌, ◌||◌, List, [], ◌∷◌, if◌then◌else◌, ◌==◌, string_eq, nat_eq,
}
use Prim.Native.Char.{code}
use sl_open_bark.Common.Dict.{Dict}
use sl_open_bark.Common.Result.{Result, ok, err}

-- The fields of a recipe that the runtime reads.
pub record Recipe : Type 0 where
  pub title : String
  pub owner : String
  pub model : String
  pub instructions : String

pub record ModelConfig : Type 0 where
  pub default : String
  pub escalation : String

pub record TaskRequest : Type 0 where
  pub recipe_id : String
  pub inline_goal : String
  pub params : Dict String
  pub identity : String
  pub committee : String
  pub hard_task : Bool

pub record RunSpec : Type 0 where
  pub goal : String
  pub instructions : String
  pub model : String
  pub identity : String
  pub committee : String
  pub params : Dict String

pub data SpecError : Type 0 where
  unreadable : String → String → SpecError
  unparsed : String → String → SpecError
  incomplete : String → SpecError
  invalid_id : String → SpecError
  recipe_not_found : String → SpecError
  no_goal : SpecError

-- `exists` is `os.Stat` without an error.
pub record Files : Type 0 where
  pub exists : String → Bool
  pub read : String → Result String String
  pub parse : String → Result String Recipe
  pub clean : String → String
  pub join : String → String → String

unfoldable pub select : ModelConfig → String → Bool → String
select m recipe_model hard =
    if not (recipe_model == "")
    then recipe_model
    else if hard && not (m.escalation == "")
    then m.escalation
    else m.default

abbrev starts_dot : String → Bool
starts_dot String.[] = false
starts_dot (String.◌∷◌ c s) = code c == b'.'

-- `strings.Contains(s, "..")`
unfoldable pub has_dots : String → Bool
unfolding nat_eq
has_dots String.[] = false
has_dots (String.◌∷◌ c s) = (code c == b'.' && starts_dot s) || has_dots s

-- `strings.TrimPrefix(s, "/")`
unfoldable pub trim_slash : String → String
unfolding nat_eq
trim_slash String.[] = String.[]
trim_slash (String.◌∷◌ c s) = if code c == b'/' then s else String.◌∷◌ c s

module _ (F : Files) where
  abbrev pub complete : String → Recipe → Result SpecError Recipe
  complete path r =
      if r.title == "" || r.instructions == "" || r.owner == "" then err (incomplete path) else ok r

  abbrev pub parsed : String → Result String Recipe → Result SpecError Recipe
  parsed path (err e) = err (unparsed path e)
  parsed path (ok r) = complete path r

  abbrev pub from_raw : String → Result String String → Result SpecError Recipe
  from_raw path (err e) = err (unreadable path e)
  from_raw path (ok raw) = parsed path (F.parse raw)

  unfoldable pub load_recipe : String → Result SpecError Recipe
  load_recipe path = from_raw path (F.read path)

  abbrev pub first_of : String → String → List String → Result SpecError Recipe
  first_of id base [] = err (recipe_not_found id)
  first_of id base (ext ∷ exts) =
      let later = first_of id base exts in
      if F.exists (base <> ext) then load_recipe (base <> ext) else later

  abbrev pub safe_id : String → String
  safe_id id = trim_slash (F.clean ("/" <> id))

  unfoldable pub load_recipe_by_id : String → String → Result SpecError Recipe
  unfolding has_dots trim_slash load_recipe
  load_recipe_by_id dir id =
      if safe_id id == "" || has_dots (safe_id id)
      then err (invalid_id id)
      else first_of id (F.join dir (safe_id id)) (".yaml" ∷ ".yml" ∷ [])

  abbrev pub spec_of : ModelConfig → TaskRequest → String → String → String → RunSpec
  spec_of models req goal instructions recipe_model = record {
    goal = goal;
    instructions = instructions;
    model = select models recipe_model req.hard_task;
    identity = req.identity;
    committee = req.committee;
    params = req.params;
  }

  abbrev pub from_recipe :
      ModelConfig → TaskRequest → Result SpecError Recipe → Result SpecError RunSpec
  from_recipe models req (err e) = err e
  from_recipe models req (ok r) = ok (spec_of models req r.title r.instructions r.model)

  unfoldable pub build_spec : ModelConfig → String → TaskRequest → Result SpecError RunSpec
  unfolding load_recipe_by_id select
  build_spec models dir req =
      if not (req.recipe_id == "")
      then from_recipe models req (load_recipe_by_id dir req.recipe_id)
      else if not (req.inline_goal == "")
      then ok (spec_of models req req.inline_goal "" "")
      else err no_goal
