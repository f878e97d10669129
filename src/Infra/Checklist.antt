-- ===== src/Infra/Checklist.antt =====
-- infra/validate/checklist.go: the security checklist. The YAML parser is a parameter; `wide` is the
-- lower case of the code points above ASCII. A problem is told by its kind.
pub mod Secrets
pub mod Passes
use sl_open_bark.Common.{
  ℕ, String, Bool, true, false, not, ◌&&◌, ◌||◌, List, [], ◌∷◌, ◌++◌, Option, none, some,
  if◌then◌else◌, ◌==◌, string_eq, nat_eq,
}
use sl_open_bark.Common.Result.{Result, ok, err}
use sl_open_bark.Gateway.Redact.{codes, to_lower}
use sl_open_bark.Infra.Tree.{Node, Found, unreadable, both, find_manifests}
use sl_open_bark.Infra.Checklist.Secrets.{Problem, no_scope, bad_impact, not_gated, scan_secrets}

pub record CheckedTool : Type 0 where
  pub name : String
  pub scope : String
  pub impact : String

pub record CheckedManifest : Type 0 where
  pub name : String
  pub tools : List CheckedTool

abbrev pub hints : List String
hints =
    "send" ∷ "delete" ∷ "remove" ∷ "submit" ∷ "book" ∷ "pay" ∷ "transfer" ∷ "purchase" ∷ "destroy"
    ∷ "withdraw" ∷ []

abbrev starts_with : List ℕ → List ℕ → Bool
starts_with s [] = true
starts_with [] (p ∷ ps) = false
starts_with (c ∷ cs) (p ∷ ps) = c == p && starts_with cs ps

-- `strings.Contains`, by code points
abbrev contains_codes : List ℕ → List ℕ → Bool
contains_codes [] hint = starts_with [] hint
contains_codes (c ∷ cs) hint = starts_with (c ∷ cs) hint || contains_codes cs hint

abbrev has_hint : List ℕ → List String → Bool
has_hint name [] = false
has_hint name (h ∷ hs) = contains_codes name (codes h) || has_hint name hs

module _ (wide : ℕ → ℕ) (parse : String → Result String CheckedManifest) where
  unfoldable pub looks_irreversible : String → Bool
  unfolding to_lower
  looks_irreversible name = has_hint (to_lower wide name) hints

  abbrev pub when : Bool → Problem → List Problem
  when b p = if b then p ∷ [] else []

  abbrev pub known_impact : String → Bool
  known_impact impact = impact == "read" || impact == "write" || impact == "high"

  unfoldable pub check_tool : String → CheckedTool → List Problem
  unfolding looks_irreversible
  check_tool manifest t =
      when (t.scope == "") (no_scope manifest t.name)
      ++ (when (not (known_impact t.impact)) (bad_impact manifest t.name t.impact)
          ++ when (looks_irreversible t.name && not (t.impact == "high"))
              (not_gated manifest t.name t.impact))

  unfoldable pub check_tools : String → List CheckedTool → List Problem
  unfolding check_tool
  check_tools manifest [] = []
  check_tools manifest (t ∷ ts) = check_tool manifest t ++ check_tools manifest ts

  abbrev pub of_manifest : Result String CheckedManifest → Result String (List Problem)
  of_manifest (err e) = err e
  of_manifest (ok m) = ok (check_tools m.name m.tools)

  abbrev pub check_content : String → Option String → Result String (List Problem)
  check_content path none = err (unreadable path)
  check_content path (some raw) = of_manifest (parse raw)

  unfoldable pub check_manifests : List Found → Result String (List Problem)
  unfolding check_tools
  check_manifests [] = ok []
  check_manifests (f ∷ files) = both (check_content f.path f.content) (check_manifests files)

  abbrev pub from_files : Result String (List Found) → Result String (List Problem)
  from_files (err e) = err e
  from_files (ok files) = check_manifests files

  unfoldable pub run_checklist : Node → Result String (List Problem)
  unfolding check_manifests find_manifests scan_secrets
  run_checklist root = both (from_files (find_manifests root)) (scan_secrets root)
