-- ===== src/Infra/Validate.antt =====
-- infra/validate/validate.go: files against a schema. YAML, JSON and the schema library are
-- parameters; a message is the error's text.
use sl_open_bark.Common.{String, ◌<>◌, List, [], ◌∷◌, Option, none, some}
use sl_open_bark.Common.Result.{Result, ok, err}
use sl_open_bark.Infra.Tree.{Node, file, child, Found, unreadable}

-- `compile` is the reading of a schema, from its text on; `normalize` goes through JSON.
pub record Validator : Type 1 where
  pub Schema : Type 0
  pub Yaml : Type 0
  pub Instance : Type 0
  pub compile : String → Result String Schema
  pub parse : String → Result String Yaml
  pub normalize : Yaml → Result String Instance
  pub validate : Schema → Instance → Option String

module _ (V : Validator) where
  abbrev compiled : String → Option Node → Result String V.Schema
  compiled path (some (file name size (some text))) = V.compile text
  compiled path n = err (unreadable path)

  abbrev in_folder : String → Option Node → Option Node
  in_folder name none = none
  in_folder name (some n) = child name n

  unfoldable pub load_schema : String → String → Node → Result String V.Schema
  load_schema folder name root =
      compiled (folder <> ("/" <> name)) (in_folder name (child folder root))

  abbrev validated : V.Schema → Result String V.Instance → Option String
  validated schema (err e) = some e
  validated schema (ok inst) = V.validate schema inst

  abbrev normalized : V.Schema → Result String V.Yaml → Option String
  normalized schema (err e) = some e
  normalized schema (ok parsed) = validated schema (V.normalize parsed)

  abbrev from_content : V.Schema → String → Option String → Option String
  from_content schema path none = some (unreadable path)
  from_content schema path (some text) = normalized schema (V.parse text)

  -- The error of a file, if it has one.
  unfoldable pub validate_file : V.Schema → Found → Option String
  validate_file schema f = from_content schema f.path f.content

  abbrev add_problem : String → Option String → List String → List String
  add_problem path none problems = problems
  add_problem path (some e) problems = (path <> (":\n" <> e)) ∷ problems

  unfoldable pub validate_all : V.Schema → List Found → List String
  unfolding validate_file
  validate_all schema [] = []
  validate_all schema (f ∷ files) =
      add_problem f.path (validate_file schema f) (validate_all schema files)
