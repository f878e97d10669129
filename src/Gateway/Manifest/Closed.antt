-- ===== src/Gateway/Manifest/Closed.antt =====
-- manifest.go: loading is fail-closed.
use sl_open_bark.Common.{
  true, List, [], ◌∷◌, contains, string_eq, ◌≡◌, ◌≢◌, ◌⊎◌, inl, arith, refl, map,
}
use sl_open_bark.Common.Lists.{All}
use sl_open_bark.Common.Result.{Result, ok, err}
use sl_open_bark.Store.Models.{ServerInput, ToolInput}
use sl_open_bark.Gateway.Manifest.{
  ManifestTool, ManifestFile, ManifestError, valid_impact, check_tool, check_tools, validate,
}

abbrev pub Declared : ManifestTool → Type 0
Declared t = (t.name ≢ "") × (t.scope ≢ "") × (contains valid_impact t.impact ≡ true)

abbrev pub tool_input : ManifestTool → ToolInput
tool_input t = record { name = t.name; scope = t.scope; impact = t.impact }

-- Either the answer is `a` and `P` holds, or it is an error and `P` does not hold.
abbrev pub Decided : {A : Type 0} → Result ManifestError A → A → Type 0 → Type 0
Decided r a P = ((r ≡ ok a) × P) ⊎ ((e : ManifestError) × (r ≡ err e) × ¬ P)

check_tool-Decided : (t : ManifestTool) → Decided (check_tool t) (tool_input t) (Declared t)
unfolding check_tool
check_tool-Decided t = ground arith

check_tools-Decided :
    (ts : List ManifestTool) → Decided (check_tools ts) (map tool_input ts) (All Declared ts)
unfolding check_tools
check_tools-Decided [] = inl (refl, tt)
check_tools-Decided (t ∷ ts) = ground (arith, check_tool-Decided t, check_tools-Decided ts)

abbrev pub input_of : ManifestFile → ServerInput
input_of m = record {
  name = m.name;
  owner = m.owner;
  description = m.description;
  endpoint = m.endpoint;
  transport = m.transport;
  auth = m.auth;
  tools = map tool_input m.tools;
  committees = m.allowed_committees;
}

abbrev pub Complete : ManifestFile → Type 0
Complete m = (m.name ≢ "") × (m.endpoint ≢ "") × (m.tools ≢ []) × All Declared m.tools

-- A manifest with a name, an endpoint and at least one tool, whose tools all have a name, a
-- scope and a valid impact, is translated field by field; every other manifest is an error.
pub validate-Decided : (m : ManifestFile) → Decided (validate m) (input_of m) (Complete m)
unfolding validate
validate-Decided m = ground (arith, check_tools-Decided m.tools)
