-- ===== src/Runtime/Spec/Built.antt =====
-- recipe.go, model.go and runtime.go: what a task's spec is built from.
use mathlib.Core.Path.{subst}
use sl_open_bark.Common.{
  String, ◌<>◌, Bool, true, false, not, ◌||◌, List, [], ◌∷◌, if◌then◌else◌, ◌==◌, string_eq, ◌≡◌,
  ◌≢◌, ◌⊎◌, inl, inr, refl, sym, ap, arith,
}
use sl_open_bark.Common.Members.{Elem}
use sl_open_bark.Common.Result.{Result, ok, err}
use sl_open_bark.Runtime.Spec.{
  Recipe, ModelConfig, TaskRequest, RunSpec, SpecError, incomplete, invalid_id, no_goal, Files,
  select, has_dots, complete, parsed, from_raw, load_recipe, first_of, safe_id, load_recipe_by_id,
  spec_of, from_recipe, build_spec,
}

-- The model: the recipe's own, the stronger one for a hard task if there is one, or the default.
abbrev pub Selected : ModelConfig → String → Bool → String → Type 0
Selected m recipe_model hard model =
    ((recipe_model ≢ "") × (model ≡ recipe_model))
    ⊎ ((recipe_model ≡ "") × (hard ≡ true) × (m.escalation ≢ "") × (model ≡ m.escalation))
    ⊎ ((recipe_model ≡ "") × ((hard ≡ false) ⊎ (m.escalation ≡ "")) × (model ≡ m.default))

select-Selected :
    (m : ModelConfig) (recipe_model : String) (hard : Bool)
    → Selected m recipe_model hard (select m recipe_model hard)
unfolding select
select-Selected m recipe_model hard = ground arith

-- Which branch a result came from.
branch :
    {A : Type 0} (b : Bool) (x y : Result SpecError A) (a : A)
    → (if b then x else y) ≡ ok a
    → ((b ≡ true) × (x ≡ ok a)) ⊎ ((b ≡ false) × (y ≡ ok a))
branch true x y a h = inl (refl, h)
branch false x y a h = inr (refl, h)

guarded :
    {A : Type 0} (b : Bool) (e : SpecError) (y : Result SpecError A) (a : A)
    → (if b then err e else y) ≡ ok a
    → (b ≡ false) × (y ≡ ok a)
guarded true e y a h = cc
guarded false e y a h = (refl, h)

module _ (F : Files) where
  -- A recipe that was read from a path and is complete.
  abbrev pub Loaded : String → Recipe → Type 0
  Loaded path r =
      ((raw : String) × (F.read path ≡ ok raw) × (F.parse raw ≡ ok r))
      × (r.title ≢ "")
      × (r.instructions ≢ "")
      × (r.owner ≢ "")

  -- The path of a recipe stays below the folder of recipes: no part of it is "..".
  abbrev pub Below : String → String → String → Type 0
  Below dir id path =
      (safe_id F id ≢ "")
      × (has_dots (safe_id F id) ≡ false)
      × ((ext : String) × Elem ext (".yaml" ∷ ".yml" ∷ [])
          × (path ≡ (F.join dir (safe_id F id) <> ext)))

  complete_fields :
      (r : Recipe)
      → (r.title == "" || r.instructions == "" || r.owner == "") ≡ false
      → (r.title ≢ "") × (r.instructions ≢ "") × (r.owner ≢ "")
  complete_fields r h = ground arith

  parsed-Loaded :
      (path raw : String) (r : Recipe) (p : Result String Recipe)
      → F.read path ≡ ok raw
      → F.parse raw ≡ p
      → parsed F path p ≡ ok r
      → Loaded path r
  parsed-Loaded path raw r (err e) q k h = cc
  parsed-Loaded path raw r (ok s) q k h =
      let (filled, same) = guarded _ (incomplete path) (ok s) r h in
      let e : s ≡ r = cc in
      let (title, instructions, owner) = complete_fields s filled in
      subst (Loaded path) e ((raw, q, k), title, instructions, owner)

  load_recipe-Loaded :
      (path : String) (r : Recipe) (o : Result String String)
      → F.read path ≡ o
      → from_raw F path o ≡ ok r
      → Loaded path r
  load_recipe-Loaded path r (err e) q h = cc
  load_recipe-Loaded path r (ok raw) q h = parsed-Loaded path raw r (F.parse raw) q refl h

  first_of-Loaded :
      (id base : String) (exts : List String) (r : Recipe)
      → first_of F id base exts ≡ ok r
      → (ext : String) × Elem ext exts × Loaded (base <> ext) r
  unfolding load_recipe
  first_of-Loaded id base [] r h = cc
  first_of-Loaded id base (ext ∷ exts) r h =
      elim (branch (F.exists (base <> ext)) (load_recipe F (base <> ext)) (first_of F id base exts)
        r h) [
          | inl (there, loaded) ↦
              (ext, inl refl, load_recipe-Loaded (base <> ext) r (F.read (base <> ext)) refl loaded)
          | inr (absent, later) ↦
              let (other, m, loaded) = first_of-Loaded id base exts r later in
              (other, inr m, loaded)
        ]

  load_recipe_by_id-Below :
      (dir id : String) (r : Recipe)
      → load_recipe_by_id F dir id ≡ ok r
      → (path : String) × Below dir id path × Loaded path r
  unfolding load_recipe_by_id
  load_recipe_by_id-Below dir id r h =
      let (safe, found) =
        guarded (safe_id F id == "" || has_dots (safe_id F id)) (invalid_id id) _ r h in
      let (ext, m, loaded) =
        first_of-Loaded id (F.join dir (safe_id F id)) (".yaml" ∷ ".yml" ∷ []) r found in
      (F.join dir (safe_id F id) <> ext, (ground arith, ground arith, (ext, m, refl)), loaded)

  -- Where a spec comes from.
  abbrev pub Built : ModelConfig → String → TaskRequest → RunSpec → Type 0
  Built models dir req spec =
      ((req.recipe_id ≢ "")
        × ((path : String) × (r : Recipe) × Below dir req.recipe_id path
            × Loaded path r
            × (spec.goal ≡ r.title)
            × (spec.instructions ≡ r.instructions)
            × Selected models r.model req.hard_task spec.model))
      ⊎ ((req.recipe_id ≡ "")
          × (req.inline_goal ≢ "")
          × (spec.goal ≡ req.inline_goal)
          × Selected models "" req.hard_task spec.model)

  from_recipe-ok :
      (models : ModelConfig) (req : TaskRequest) (spec : RunSpec) (o : Result SpecError Recipe)
      → from_recipe F models req o ≡ ok spec
      → (r : Recipe) × (o ≡ ok r) × (spec_of F models req r.title r.instructions r.model ≡ spec)
  from_recipe-ok models req spec (err e) h = cc
  from_recipe-ok models req spec (ok r) h = (r, refl, cc)

  from_goal :
      (models : ModelConfig) (req : TaskRequest) (spec : RunSpec)
      → req.recipe_id ≡ ""
      → (if not (req.inline_goal == "")
          then ok (spec_of F models req req.inline_goal "" "")
          else err no_goal)
        ≡ ok spec
      → (req.recipe_id ≡ "")
        × (req.inline_goal ≢ "")
        × (spec.goal ≡ req.inline_goal)
        × Selected models "" req.hard_task spec.model
  from_goal models req spec unnamed made =
      elim (branch (not (req.inline_goal == "")) (ok (spec_of F models req req.inline_goal "" ""))
        (err no_goal) spec made) [
          | inl (goal, made_so) ↦
              let same : spec_of F models req req.inline_goal "" "" ≡ spec = cc in
              (
                unnamed,
                ground arith,
                ap (λ (x : RunSpec). x.goal) (sym same),
                subst (λ (x : RunSpec). Selected models "" req.hard_task x.model) same
                    (select-Selected models "" req.hard_task),
              )
          | inr (blank, failed) ↦ cc
        ]

  -- A task gets a spec only from a recipe or a goal. With a recipe id, it is that of a complete recipe,
  -- read from a file whose path is the folder of recipes and a name without "..", with an ending
  -- for YAML; else it is the goal of the request, which is not blank. The model is the recipe's, if it
  -- has one, or the stronger one for a hard task, if there is one, or the default.
  pub build_spec-Built :
      (models : ModelConfig) (dir : String) (req : TaskRequest) (spec : RunSpec)
      → build_spec F models dir req ≡ ok spec
      → Built models dir req spec
  unfolding build_spec
  build_spec-Built models dir req spec h =
      elim (branch (not (req.recipe_id == ""))
        (from_recipe F models req (load_recipe_by_id F dir req.recipe_id)) _ spec h) [
          | inl (named, made) ↦
              let (r, loaded, same) = from_recipe-ok models req spec _ made in
              let (path, below, complete) = load_recipe_by_id-Below dir req.recipe_id r loaded in
              inl (
                ground arith,
                (
                  path,
                  r,
                  below,
                  complete,
                  ap (λ (x : RunSpec). x.goal) (sym same),
                  ap (λ (x : RunSpec). x.instructions) (sym same),
                  subst (λ (x : RunSpec). Selected models r.model req.hard_task x.model) same
                      (select-Selected models r.model req.hard_task),
                ),
              )
          | inr (unnamed, made) ↦ inr (from_goal models req spec (ground arith) made)
        ]
