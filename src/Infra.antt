-- ===== src/Infra.antt =====
-- infra/validate/main.go: the commands of slvalidate. What it prints is not modelled.
pub mod Checklist
pub mod Tree
pub mod Validate
use sl_open_bark.Common.{
  ℕ, zero, suc, String, ◌||◌, List, [], ◌∷◌, Option, none, some, if◌then◌else◌, ◌==◌, string_eq,
}
use sl_open_bark.Common.Lists.{length}
use sl_open_bark.Common.Result.{Result, ok, err}
use sl_open_bark.Infra.Tree.{Node, Found, find_manifests, find_recipes}
use sl_open_bark.Infra.Validate.{Validator, load_schema, validate_all}
use sl_open_bark.Infra.Checklist.{CheckedManifest, run_checklist}
use sl_open_bark.Infra.Checklist.Secrets.{Problem}

-- Why a command fails: an error of a file or a schema, problems by their number, or no such command.
pub data CommandError : Type 0 where
  missing_command : CommandError
  unknown_command : String → CommandError
  failed : String → CommandError
  invalid_files : ℕ → CommandError
  checklist_problems : ℕ → CommandError

module _ (wide : ℕ → ℕ) (parse : String → Result String CheckedManifest) (V : Validator) where
  abbrev counted : (ℕ → CommandError) → ℕ → Option CommandError
  counted e zero = none
  counted e (suc n) = some (e (suc n))

  abbrev check_files : V.Schema → Result String (List Found) → Option CommandError
  check_files schema (err e) = some (failed e)
  check_files schema (ok files) = counted invalid_files (length (validate_all V schema files))

  abbrev check_against : Result String V.Schema → Result String (List Found) → Option CommandError
  check_against (err e) files = some (failed e)
  check_against (ok schema) files = check_files schema files

  -- `checkKind`, by the folder of the schema and its files
  pub check_kind :
      String → String → (Node → Result String (List Found)) → Node → Option CommandError
  check_kind folder schema find root = check_against (load_schema V folder schema root) (find root)

  pub check_manifests : Node → Option CommandError
  unfolding check_kind
  check_manifests = check_kind "mcp-servers" "manifest.schema.json" find_manifests

  pub check_recipes : Node → Option CommandError
  unfolding check_kind
  check_recipes = check_kind "recipes" "recipe.schema.json" find_recipes

  abbrev of_checklist : Result String (List Problem) → Option CommandError
  of_checklist (err e) = some (failed e)
  of_checklist (ok problems) = counted checklist_problems (length problems)

  unfoldable pub check_security : Node → Option CommandError
  check_security root = of_checklist (run_checklist wide parse root)

  abbrev or_else : Option CommandError → Option CommandError → Option CommandError
  or_else (some e) next = some e
  or_else none next = next

  abbrev command : String → Node → Option CommandError
  command kind root =
      if kind == "manifests"
      then check_manifests root
      else if kind == "recipes"
      then check_recipes root
      else if kind == "all"
      then or_else (check_manifests root) (check_recipes root)
      else if kind == "checklist"
      then check_security root
      else if kind == "-h" || kind == "--help" || kind == "help"
      then none
      else some (unknown_command kind)

  -- `run`, where `at` is the folder of a path
  unfoldable pub run : (String → Node) → List String → Option CommandError
  unfolding check_manifests check_recipes check_security
  run at [] = some missing_command
  run at (kind ∷ []) = command kind (at ".")
  run at (kind ∷ root ∷ rest) = command kind (at root)
