-- ===== src/Gateway/Manifest/Loaded.antt =====
-- manifest.go: what the loaded servers say of the files.
use sl_open_bark.Common.{
  String, List, [], ◌∷◌, Option, none, some, string_eq, ◌≡◌, refl, sym, inl, inr, arith,
}
use mathlib.Core.Path.{subst}
use sl_open_bark.Common.Members.{Elem}
use sl_open_bark.Common.Result.{Result, ok, err}
use sl_open_bark.Store.Models.{ServerInput}
use sl_open_bark.Infra.Tree.{Found}
use sl_open_bark.Gateway.Manifest.{
  ManifestFile, ManifestError, LoadError, validate, load, load_all, parsed, checked, from_content,
  also,
}
use sl_open_bark.Gateway.Manifest.Closed.{Complete, input_of, validate-Decided}

module _ (parse : String → Result String ManifestFile) where
  -- What is read from a file is a manifest.
  abbrev pub Reads : Found → ManifestFile → Type 0
  Reads f m = (raw : String) × (f.content ≡ some raw) × (parse raw ≡ ok m)

  abbrev pub Loads : Found → ServerInput → Type 0
  Loads f input = (m : ManifestFile) × Reads f m × Complete m × (input ≡ input_of m)

  checked-ok :
      (path : String) (r : Result ManifestError ServerInput) (input : ServerInput)
      → checked parse path r ≡ ok input
      → r ≡ ok input
  checked-ok path (err e) input h = cc
  checked-ok path (ok x) input h = ground (arith, h)

  validate-Complete :
      (m : ManifestFile) (input : ServerInput)
      → validate m ≡ ok input
      → Complete m × (input ≡ input_of m)
  validate-Complete m input h = elim (validate-Decided m) [
    | inl (e, complete) ↦ (complete, ground (arith, h, e))
    | inr (x, e, _) ↦ absurd (ground (arith, h, e))
  ]

  parsed-Loads :
      (f : Found) (raw : String) (r : Result String ManifestFile) (input : ServerInput)
      → f.content ≡ some raw
      → parse raw ≡ r
      → parsed parse f.path r ≡ ok input
      → Loads f input
  parsed-Loads f raw (err e) input c p h = cc
  parsed-Loads f raw (ok m) input c p h =
      let (complete, e) = validate-Complete m input (checked-ok f.path (validate m) input h) in
      (m, (raw, c, p), complete, e)

  from_content-Loads :
      (f : Found) (o : Option String) (input : ServerInput)
      → f.content ≡ o
      → from_content parse f.path o ≡ ok input
      → Loads f input
  from_content-Loads f none input c h = cc
  from_content-Loads f (some raw) input c h = parsed-Loads f raw (parse raw) input c refl h

  load-Loads : (f : Found) (input : ServerInput) → load parse f ≡ ok input → Loads f input
  unfolding load
  load-Loads f input h = from_content-Loads f f.content input refl h

  -- Every file that was found is loaded into one of the inputs.
  abbrev pub AllLoad : List Found → List ServerInput → Type 0
  AllLoad fs inputs =
      (f : Found) → Elem f fs → (input : ServerInput) × Elem input inputs × Loads f input

  also-AllLoad :
      (f : Found) (fs : List Found) (r : Result LoadError ServerInput)
      (rs : Result LoadError (List ServerInput)) (inputs : List ServerInput)
      → load parse f ≡ r
      → ((xs : List ServerInput) → rs ≡ ok xs → AllLoad fs xs)
      → also parse r rs ≡ ok inputs
      → AllLoad (f ∷ fs) inputs
  also-AllLoad f fs (err e) rs inputs l ih h g m = cc
  also-AllLoad f fs (ok x) (err e) inputs l ih h g m = cc
  also-AllLoad f fs (ok x) (ok xs) [] l ih h g m = cc
  also-AllLoad f fs (ok x) (ok xs) (y ∷ ys) l ih h g (inl e) =
      (y, inl refl, subst (λ z. Loads z y) (sym e) (load-Loads f y (ground (arith, l, h))))
  also-AllLoad f fs (ok x) (ok xs) (y ∷ ys) l ih h g (inr m) =
      let (z, held, loads) = ih ys (ground (arith, h)) g m in (z, inr held, loads)

  pub load_all-AllLoad :
      (fs : List Found) (inputs : List ServerInput)
      → load_all parse fs ≡ ok inputs
      → AllLoad fs inputs
  unfolding load_all
  load_all-AllLoad [] inputs h f m = absurd m
  load_all-AllLoad (f ∷ fs) inputs h g m =
      also-AllLoad f fs (load parse f) (load_all parse fs) inputs refl (load_all-AllLoad fs) h g m
