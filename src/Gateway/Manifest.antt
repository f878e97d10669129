-- ===== src/Gateway/Manifest.antt =====
-- gateway/internal/manifest/manifest.go: the manifests of a tree of files, as the registry's input. The
-- YAML parser is a parameter.
pub mod Closed
pub mod Loaded
use sl_open_bark.Common.{
  String, Bool, true, false, not, List, [], ◌∷◌, Option, none, some, if◌then◌else◌, ◌==◌, contains,
  string_eq,
}
use sl_open_bark.Common.Result.{Result, ok, err}
use sl_open_bark.Store.Models.{ServerInput, ToolInput}
use sl_open_bark.Infra.Tree.{Node, Found, walk, child}

pub record ManifestTool : Type 0 where
  pub name : String
  pub scope : String
  pub impact : String

pub record ManifestFile : Type 0 where
  pub name : String
  pub owner : String
  pub description : String
  pub endpoint : String
  pub transport : String
  pub auth : String
  pub tools : List ManifestTool
  pub allowed_committees : List String
  pub lifecycle : String

-- The manifest's fault, with the tool's name where it is the fault of one that has a name.
pub data ManifestError : Type 0 where
  no_name no_endpoint no_tools tool_without_name : ManifestError
  no_scope invalid_impact : String → ManifestError

abbrev pub valid_impact : List String
valid_impact = "read" ∷ "write" ∷ "high" ∷ []

pub check_tool : ManifestTool → Result ManifestError ToolInput
check_tool t =
    if t.name == ""
    then err tool_without_name
    else if t.scope == ""
    then err (no_scope t.name)
    else if not (contains valid_impact t.impact)
    then err (invalid_impact t.name)
    else ok (record { name = t.name; scope = t.scope; impact = t.impact })

abbrev also_tool :
    Result ManifestError ToolInput
    → Result ManifestError (List ToolInput)
    → Result ManifestError (List ToolInput)
also_tool (err e) rest = err e
also_tool (ok t) (err e) = err e
also_tool (ok t) (ok ts) = ok (t ∷ ts)

-- The loop over the tools, up to the first that is at fault.
pub check_tools : List ManifestTool → Result ManifestError (List ToolInput)
unfolding check_tool
check_tools [] = ok []
check_tools (t ∷ ts) = also_tool (check_tool t) (check_tools ts)

abbrev is_empty : List ManifestTool → Bool
is_empty [] = true
is_empty (t ∷ ts) = false

abbrev server_input :
    ManifestFile → Result ManifestError (List ToolInput) → Result ManifestError ServerInput
server_input m (err e) = err e
server_input m (ok tools) = ok (record {
  name = m.name;
  owner = m.owner;
  description = m.description;
  endpoint = m.endpoint;
  transport = m.transport;
  auth = m.auth;
  tools = tools;
  committees = m.allowed_committees;
})

pub validate : ManifestFile → Result ManifestError ServerInput
unfolding check_tools
validate m =
    if m.name == ""
    then err no_name
    else if m.endpoint == ""
    then err no_endpoint
    else if is_empty m.tools
    then err no_tools
    else server_input m (check_tools m.tools)

-- Why a manifest, or the tree, cannot be loaded, with the path.
pub data LoadError : Type 0 where
  walk_failed : String → LoadError
  unread : String → LoadError
  unparsed : String → String → LoadError
  invalid : String → ManifestError → LoadError

module _ (parse : String → Result String ManifestFile) where
  abbrev pub checked : String → Result ManifestError ServerInput → Result LoadError ServerInput
  checked path (err e) = err (invalid path e)
  checked path (ok input) = ok input

  abbrev pub parsed : String → Result String ManifestFile → Result LoadError ServerInput
  parsed path (err e) = err (unparsed path e)
  parsed path (ok m) = checked path (validate m)

  abbrev pub from_content : String → Option String → Result LoadError ServerInput
  from_content path none = err (unread path)
  from_content path (some raw) = parsed path (parse raw)

  unfoldable pub load : Found → Result LoadError ServerInput
  load f = from_content f.path f.content

  abbrev pub also :
      Result LoadError ServerInput
      → Result LoadError (List ServerInput)
      → Result LoadError (List ServerInput)
  also (err e) rest = err e
  also (ok input) (err e) = err e
  also (ok input) (ok inputs) = ok (input ∷ inputs)

  -- The loop over the paths, up to the first that cannot be loaded.
  unfoldable pub load_all : List Found → Result LoadError (List ServerInput)
  unfolding load
  load_all [] = ok []
  load_all (f ∷ fs) = also (load f) (load_all fs)

  -- The paths in the order of the walk; a folder that is not there has none.
  abbrev pub is_manifest : String → Bool
  is_manifest name = name == "manifest.yaml"

  abbrev pub paths_in : Option Node → Result String (List Found)
  paths_in none = ok []
  paths_in (some n) = walk is_manifest "mcp-servers" n

  abbrev pub from_paths : Result String (List Found) → Result LoadError (List ServerInput)
  from_paths (err e) = err (walk_failed e)
  from_paths (ok fs) = load_all fs

  unfoldable pub load_dir : Node → Result LoadError (List ServerInput)
  unfolding load_all walk
  load_dir root = from_paths (paths_in (child "mcp-servers" root))
