-- ===== src/Infra/Checklist/Passes.antt =====
-- checklist.go: what it means that the checklist passes.
use mathlib.Core.Bool.{true≢false}
use sl_open_bark.Common.{
  ℕ, String, Bool, true, false, not, ◌&&◌, List, [], ◌∷◌, ◌++◌, Option, none, some, if◌then◌else◌,
  ◌==◌, string_eq, contains, ◌≡◌, ◌≢◌, ◌⊎◌, ◌↔◌, refl, ap, ◌∙◌, arith,
}
use sl_open_bark.Common.Lists.{All}
use sl_open_bark.Common.Result.{Result, ok, err}
use sl_open_bark.Gateway.Redact.{codes}
use sl_open_bark.Infra.Tree.{
  Node, file, folder, locked, Entries, end_entries, entry, Found, both, name_of, unreadable,
  find_manifests,
}
use sl_open_bark.Infra.Checklist.Secrets.{
  Problem, Pattern, matches, secret_patterns, leaks, scan, scan_entries, scan_secrets, inside,
  is_exempt, skipped_folders,
}
use sl_open_bark.Infra.Checklist.{
  CheckedTool, CheckedManifest, looks_irreversible, known_impact, check_tool, check_tools,
  check_content, check_manifests, when, of_manifest, from_files, run_checklist,
}

both-ok :
    {A : Type 0} (r s : Result String (List A)) → (both r s ≡ ok []) ↔ ((r ≡ ok []) × (s ≡ ok []))
both-ok (err e) s = (λ h. cc, λ (h, k). h)
both-ok (ok xs) (err e) = (λ h. cc, λ (h, k). k)
both-ok (ok []) (ok ys) = (λ h. (refl, h), λ (h, k). k)
both-ok (ok (x ∷ xs)) (ok ys) = (λ h. cc, λ (h, k). cc)

-- No pattern of a secret is anywhere in the content.
abbrev pub Secretless : String → Type 0
Secretless content = All (λ p. matches p.pieces (codes content) ≡ false) secret_patterns

-- A file that the scan does not leave out holds no secret; a folder that it does not leave out can be
-- read, and its entries are clean.
unfoldable mutual
  pub Clean : Node → Type 0
  Clean (file name size none) = Unit
  Clean (file name size (some content)) = (is_exempt name size ≡ false) → Secretless content
  Clean (folder name entries) = (contains skipped_folders name ≡ false) → AllClean entries
  Clean (locked name) = contains skipped_folders name ≡ true

  pub AllClean : Entries → Type 0
  AllClean end_entries = Unit
  AllClean (entry n ns) = Clean n × AllClean ns

leaks-Secretless :
    (path : String) (ps : List Pattern) (content : List ℕ)
    → (leaks path ps content ≡ []) ↔ All (λ p. matches p.pieces content ≡ false) ps
leaks-Secretless path [] content = (λ h. tt, λ h. refl)
leaks-Secretless path (p ∷ ps) content = ground (arith, leaks-Secretless path ps content)

-- A guard leaves a part out.
left_out :
    {A : Type 0} (b : Bool) (r : Result String (List A)) (P : Type 0)
    → (r ≡ ok []) ↔ P
    → ((if b then ok [] else r) ≡ ok []) ↔ (b ≡ false → P)
left_out true r P h = (λ k e. absurd (true≢false e), λ k. refl)
left_out false r P h = (λ k e. h.0 k, λ k. h.1 (k refl))

leaks_left_out :
    (b : Bool) (ps : List Problem) (P : Type 0)
    → (ps ≡ []) ↔ P
    → (Path (Result String (List Problem)) (ok (if b then [] else ps)) (ok [])) ↔ (b ≡ false → P)
leaks_left_out true ps P h = (λ k e. absurd (true≢false e), λ k. refl)
leaks_left_out false ps P h = (λ k e. h.0 cc, λ k. ap ok (h.1 (k refl)))

refused :
    (b : Bool) (e : String)
    → (Path (Result String (List Problem)) (if b then ok [] else err e) (ok [])) ↔ (b ≡ true)
refused true e = (λ h. refl, λ h. refl)
refused false e = (λ h. cc, λ h. cc)

file-Clean :
    (path name : String) (size : ℕ) (content : Option String)
    → (scan path (file name size content) ≡ ok []) ↔ Clean (file name size content)
unfolding scan Clean
file-Clean path name size none = (
  λ h. tt,
  λ h. (leaks_left_out (is_exempt name size) [] (Unit {0}) (λ k. tt, λ k. refl)).1 (λ k. tt),
)
file-Clean path name size (some content) =
    leaks_left_out (is_exempt name size) (leaks path secret_patterns (codes content))
      (Secretless content) (leaks-Secretless path secret_patterns (codes content))

entry-Clean :
    (path : String) (n : Node) (ns : Entries)
    → (scan (inside path (name_of n)) n ≡ ok []) ↔ Clean n
    → (scan_entries path ns ≡ ok []) ↔ AllClean ns
    → (scan_entries path (entry n ns) ≡ ok []) ↔ AllClean (entry n ns)
unfolding scan AllClean
entry-Clean path n ns h k =
    let split = both-ok (scan (inside path (name_of n)) n) (scan_entries path ns) in
    (λ e. (h.0 (split.0 e).0, k.0 (split.0 e).1), λ (c, cs). split.1 (h.1 c, k.1 cs))

mutual
  unfolding scan Clean

  scan-Clean : (path : String) (n : Node) → (scan path n ≡ ok []) ↔ Clean n
  scan-Clean path (file name size content) = file-Clean path name size content
  scan-Clean path (folder name es) =
      left_out (contains skipped_folders name) (scan_entries path es) (AllClean es)
        (scan_entries-AllClean path es)
  scan-Clean path (locked name) = refused (contains skipped_folders name) (unreadable path)

  scan_entries-AllClean :
      (path : String) (es : Entries) → (scan_entries path es ≡ ok []) ↔ AllClean es
  scan_entries-AllClean path end_entries = (λ h. tt, λ h. refl)
  scan_entries-AllClean path (entry n ns) =
      entry-Clean path n ns (scan-Clean (inside path (name_of n)) n) (scan_entries-AllClean path ns)

module _ (wide : ℕ → ℕ) (parse : String → Result String CheckedManifest) where
  -- A tool has a scope and a known impact, and the high one if its name looks irreversible.
  abbrev pub Safe : CheckedTool → Type 0
  Safe t =
      (t.scope ≢ "")
      × ((t.impact ≡ "read") ⊎ (t.impact ≡ "write") ⊎ (t.impact ≡ "high"))
      × (looks_irreversible wide parse t.name ≡ true → t.impact ≡ "high")

  -- A manifest can be read and parsed, and its tools are safe.
  abbrev pub Sound : Found → Type 0
  Sound f =
      (raw : String) × (m : CheckedManifest) × (f.content ≡ some raw)
      × (parse raw ≡ ok m)
      × All Safe m.tools

  -- The three checks of a tool, where `irreversible` is what its name looks like.
  checks-Safe :
      (scope impact : String) (irreversible : Bool) (x y z : Problem)
      → (when wide parse (scope == "") x
            ++ (when wide parse (not (known_impact wide parse impact)) y
                ++ when wide parse (irreversible && not (impact == "high")) z)
          ≡ [])
        ↔ ((scope ≢ "")
            × ((impact ≡ "read") ⊎ (impact ≡ "write") ⊎ (impact ≡ "high"))
            × (irreversible ≡ true → impact ≡ "high"))
  checks-Safe scope impact irreversible x y z = ground arith

  check_tool-Safe :
      (manifest : String) (t : CheckedTool) → (check_tool wide parse manifest t ≡ []) ↔ Safe t
  unfolding check_tool
  check_tool-Safe manifest t =
      checks-Safe t.scope t.impact (looks_irreversible wide parse t.name) _ _ _

  append-empty : {A : Type 0} (xs ys : List A) → (xs ++ ys ≡ []) ↔ ((xs ≡ []) × (ys ≡ []))
  append-empty [] ys = (λ h. (refl, h), λ (h, k). k)
  append-empty (x ∷ xs) ys = (λ h. cc, λ (h, k). cc)

  check_tools-Safe :
      (manifest : String) (ts : List CheckedTool)
      → (check_tools wide parse manifest ts ≡ []) ↔ All Safe ts
  unfolding check_tools
  check_tools-Safe manifest [] = (λ h. tt, λ h. refl)
  check_tools-Safe manifest (t ∷ ts) =
      let split =
        append-empty (check_tool wide parse manifest t) (check_tools wide parse manifest ts) in
      let this = check_tool-Safe manifest t in
      let rest = check_tools-Safe manifest ts in
      (λ h. (this.0 (split.0 h).0, rest.0 (split.0 h).1), λ (c, cs). split.1 (this.1 c, rest.1 cs))

  parsed-Sound :
      (raw : String) (r : Result String CheckedManifest)
      → parse raw ≡ r
      → of_manifest wide parse r ≡ ok []
      → (m : CheckedManifest) × (parse raw ≡ ok m) × All Safe m.tools
  parsed-Sound raw (err e) p h = cc
  parsed-Sound raw (ok m) p h = (m, p, (check_tools-Safe m.name m.tools).0 cc)

  content-Sound :
      (path : String) (o : Option String)
      → check_content wide parse path o ≡ ok []
      → (raw : String) × (m : CheckedManifest) × (o ≡ some raw)
        × (parse raw ≡ ok m)
        × All Safe m.tools
  content-Sound path none h = cc
  content-Sound path (some raw) h =
      let (m, p, safe) = parsed-Sound raw (parse raw) refl h in (raw, m, refl, p, safe)

  check_content-Sound : (f : Found) → (check_content wide parse f.path f.content ≡ ok []) ↔ Sound f
  check_content-Sound f = (
    content-Sound f.path f.content,
    λ (raw, m, e, p, safe). rw (e, p) (ap ok ((check_tools-Safe m.name m.tools).1 safe)),
  )

  check_manifests-Sound :
      (files : List Found) → (check_manifests wide parse files ≡ ok []) ↔ All Sound files
  unfolding check_manifests
  check_manifests-Sound [] = (λ h. tt, λ h. refl)
  check_manifests-Sound (f ∷ files) =
      let split =
        both-ok (check_content wide parse f.path f.content) (check_manifests wide parse files) in
      let this = check_content-Sound f in
      let rest = check_manifests-Sound files in
      (λ h. (this.0 (split.0 h).0, rest.0 (split.0 h).1), λ (c, cs). split.1 (this.1 c, rest.1 cs))

  from_files-Sound :
      (r : Result String (List Found))
      → (from_files wide parse r ≡ ok [])
        ↔ ((files : List Found) × (r ≡ ok files) × All Sound files)
  from_files-Sound (err e) = (λ h. cc, λ (files, e, s). cc)
  from_files-Sound (ok files) = (
    λ h. (files, refl, (check_manifests-Sound files).0 h),
    λ (fs, e, s).
        let same : files ≡ fs = cc in
        ap (check_manifests wide parse) same ∙ (check_manifests-Sound fs).1 s,
  )

  -- The checklist passes, which is to report no problem and no error, exactly if the manifests can be
  -- found, each of them can be read and parsed, every tool in it has a scope, a known impact and, if
  -- its name looks irreversible, the high impact, and no file that the scan looks at matches the
  -- pattern of a secret.
  pub run_checklist-Passes :
      (root : Node)
      → (run_checklist wide parse root ≡ ok [])
        ↔ (((files : List Found) × (find_manifests root ≡ ok files) × All Sound files) × Clean root)
  unfolding run_checklist scan_secrets
  run_checklist-Passes root =
      let split = both-ok (from_files wide parse (find_manifests root)) (scan "." root) in
      let found = from_files-Sound (find_manifests root) in
      let clean = scan-Clean "." root in
      (
        λ h. (found.0 (split.0 h).0, clean.0 (split.0 h).1),
        λ (c, cs). split.1 (found.1 c, clean.1 cs),
      )
