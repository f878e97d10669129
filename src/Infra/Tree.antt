-- ===== src/Infra/Tree.antt =====
-- infra/validate/validate.go: the repository's files, as `filepath.WalkDir` visits them. A folder's
-- entries stand in the order of their names; the content of a file is none where it cannot be read;
-- a folder that cannot be read is `locked`.
use sl_open_bark.Common.{
  ℕ, String, ◌<>◌, Bool, ◌||◌, List, [], ◌∷◌, ◌++◌, Option, none, some, if◌then◌else◌, ◌==◌,
  string_eq,
}
use sl_open_bark.Common.Lists.{sort_by}
use sl_open_bark.Common.Result.{Result, ok, err}
use sl_open_bark.Common.Text.{text_le}

mutual
  pub data Node : Type 0 where
    file : String → ℕ → Option String → Node
    folder : String → Entries → Node
    locked : String → Node

  pub data Entries : Type 0 where
    end_entries : Entries
    entry : Node → Entries → Entries

-- A file that was found, with what reading it gives.
pub record Found : Type 0 where
  pub path : String
  pub content : Option String

abbrev pub name_of : Node → String
name_of (file name size content) = name
name_of (folder name entries) = name
name_of (locked name) = name

abbrev pub unreadable : String → String
unreadable path = path <> ": permission denied"

abbrev pub both :
    {A : Type 0} → Result String (List A) → Result String (List A) → Result String (List A)
both (err e) r = err e
both (ok xs) (err e) = err e
both (ok xs) (ok ys) = ok (xs ++ ys)

-- The walk of `findFiles`, below a path.
unfoldable mutual
  pub walk : (String → Bool) → String → Node → Result String (List Found)
  walk keep path (file name size content) =
      ok (if keep name then record { path = path; content = content } ∷ [] else [])
  walk keep path (folder name entries) = walk_entries keep path entries
  walk keep path (locked name) = err (unreadable path)

  pub walk_entries : (String → Bool) → String → Entries → Result String (List Found)
  walk_entries keep path end_entries = ok []
  walk_entries keep path (entry n ns) =
      both (walk keep (path <> ("/" <> name_of n)) n) (walk_entries keep path ns)

-- The entry of a folder with a name. What is no folder that can be searched gives an error for any
-- name, as an entry that cannot be read does.
abbrev child_in : String → Entries → Option Node
child_in name end_entries = none
child_in name (entry n ns) =
    let rest = child_in name ns in if name_of n == name then some n else rest

abbrev pub child : String → Node → Option Node
child name (folder n entries) = child_in name entries
child name n = some (locked name)

abbrev sorted : Result String (List Found) → Result String (List Found)
sorted (err e) = err e
sorted (ok files) = ok (sort_by (λ (a b : Found). text_le a.path b.path) files)

-- A folder that is not there has no files.
abbrev found_in : (String → Bool) → String → Option Node → Result String (List Found)
found_in keep dir none = ok []
found_in keep dir (some n) = sorted (walk keep dir n)

unfoldable pub find_files : String → (String → Bool) → Node → Result String (List Found)
unfolding walk sort_by
find_files dir keep root = found_in keep dir (child dir root)

unfoldable pub find_manifests : Node → Result String (List Found)
unfolding find_files
find_manifests = find_files "mcp-servers" (λ name. name == "manifest.yaml")

-- `strings.HasSuffix`, on texts
unfoldable pub has_suffix : String → String → Bool
has_suffix String.[] suffix = String.[] == suffix
has_suffix (String.◌∷◌ c s) suffix = String.◌∷◌ c s == suffix || has_suffix s suffix

-- `filepath.Ext` is ".yaml" or ".yml" exactly for names that end so.
unfoldable pub find_recipes : Node → Result String (List Found)
unfolding find_files has_suffix
find_recipes = find_files "recipes" (λ name. has_suffix name ".yaml" || has_suffix name ".yml")
