-- ===== src/Memory/Scoped.antt =====
-- tools.go over the repository: no handler reaches beyond the scope it is given.
use mathlib.Core.Path.{subst}
use sl_open_bark.Common.{
  ℕ, String, Bool, true, not, ◌&&◌, List, [], ◌∷◌, Option, none, some, contains, Bool-cases, ◌<◌,
  ◌⊎◌, inl, inr, ◌↔◌, sym, if◌then◌else◌, ◌==◌, string_eq, ◌≡◌, ◌≢◌, refl, arith, ap, ◌∙◌, if_elim,
}
use sl_open_bark.Common.Lists.{filter, length}
use sl_open_bark.Common.Members.{Elem}
use sl_open_bark.Common.Result.{Result, ok, err, pure, raise, continue_with, >>=-ok}
use sl_open_bark.Store.Models.{Fact}
use sl_open_bark.Store.Db.{Db, Tables, StoreError}
use sl_open_bark.Store.Db.Laws.{modify-ok}
use sl_open_bark.Store.Facts.{
  search_facts, forget_facts_by_key, facts_deleted, has_key, overlaps, is_current,
}
use sl_open_bark.Store.Facts.Scope.{Admits, search_facts-Elem}
use sl_open_bark.Memory.{
  repository, SearchInput, SearchOutput, ForgetInput, ForgetOutput, MemoryError, lifted, of_store,
  query_of, search, forget, forget_key, forget_one, forget_requires, Handler,
}

contains-Elem : (xs : List String) (x : String) → contains xs x ≡ true → Elem x xs
contains-Elem [] x h = cc
contains-Elem (y ∷ ys) x h = ground (arith, contains-Elem ys x)

Elem-contains : (xs : List String) (x : String) → Elem x xs → contains xs x ≡ true
Elem-contains [] x m = absurd m
Elem-contains (y ∷ ys) x m = ground (arith, Elem-contains ys x)

overlaps-Elem :
    (tags wanted : List String)
    → overlaps tags wanted ≡ true
    → (tag : String) × Elem tag tags × Elem tag wanted
unfolding overlaps
overlaps-Elem [] wanted h = cc
overlaps-Elem (t ∷ ts) wanted h = elim (Bool-cases (contains wanted t)) [
  | inl hit ↦ (t, inl refl, contains-Elem wanted t hit)
  | inr miss ↦ let (tag, m, k) = overlaps-Elem ts wanted (ground arith) in (tag, inr m, k)
]

Elem-overlaps :
    (tag : String) (tags wanted : List String)
    → Elem tag tags
    → Elem tag wanted
    → overlaps tags wanted ≡ true
unfolding overlaps
Elem-overlaps tag [] wanted m k = absurd m
Elem-overlaps tag (t ∷ ts) wanted (inl e) k =
    let hit : contains wanted t ≡ true = rw (sym e) (Elem-contains wanted tag k) in rw hit refl
Elem-overlaps tag (t ∷ ts) wanted (inr m) k =
    let later = Elem-overlaps tag ts wanted m k in ground arith

current-alive :
    (now : ℕ) (o : Option ℕ)
    → is_current now o ≡ true
    → (o ≡ none) ⊎ ((t : ℕ) × (o ≡ some t) × (now < t))
unfolding is_current
current-alive now none h = inl refl
current-alive now (some t) h = inr (t, refl, ground arith)

alive-current :
    (now : ℕ) (o : Option ℕ)
    → (o ≡ none) ⊎ ((t : ℕ) × (o ≡ some t) × (now < t))
    → is_current now o ≡ true
unfolding is_current
alive-current now none h = refl
alive-current now (some t) h = ground arith

module _ (parse_time : String → Option ℕ) where
  lifted-ok :
      {A : Type 0} (r : Result StoreError A × Db) (a : A)
      → (lifted repository parse_time r).0 ≡ ok a
      → r.0 ≡ ok a
  lifted-ok (ok x, db) a h = ground arith
  lifted-ok (err e, db) a h = cc

  -- What the tool is asked for: a fact of the scope, with one of the tags if any are named, that has
  -- not expired.
  pub record Wanted (input : SearchInput) (now : ℕ) (f : Fact) : Type 0 where
    pub of_type : f.scope_type ≡ input.scope_type
    pub of_scope : f.scope_id ≡ input.scope_id
    pub alive : (f.expires_at ≡ none) ⊎ ((t : ℕ) × (f.expires_at ≡ some t) × (now < t))
    pub tagged : (input.tags ≡ []) ⊎ ((tag : String) × Elem tag f.tags × Elem tag input.tags)

  Admits-Wanted :
      (input : SearchInput) (now : ℕ) (f : Fact)
      → Admits (query_of repository parse_time input) now f
      → Wanted input now f
  Admits-Wanted input now f a = record {
    of_type = a.same_type;
    of_scope = a.same_scope;
    alive = elim a.current [ inl all ↦ cc | inr h ↦ current-alive now f.expires_at h ];
    tagged = elim a.tagged [ inl e ↦ inl e | inr h ↦ inr (overlaps-Elem f.tags input.tags h) ];
  }

  Wanted-Admits :
      (input : SearchInput) (now : ℕ) (f : Fact)
      → Wanted input now f
      → Admits (query_of repository parse_time input) now f
  Wanted-Admits input now f w = record {
    same_type = w.of_type;
    same_scope = w.of_scope;
    current = inr (alive-current now f.expires_at w.alive);
    tagged = elim w.tagged [
      | inl e ↦ inl e
      | inr (tag, m, k) ↦ inr (Elem-overlaps tag f.tags input.tags m k)
    ];
  }

  -- The search tool without a limit, where it succeeds, returns a fact exactly if the table holds it,
  -- it is in the scope of the tool's input, it carries one of the input's tags if that names tags, and
  -- it has no expiry or one that is still to come.
  pub search-Wanted :
      (input : SearchInput) (db : Db) (out : SearchOutput) (f : Fact)
      → input.limit ≡ 0
      → (search repository parse_time input db).0 ≡ ok out
      → Elem f out.facts ↔ (Elem f db.facts × Wanted input db.now f)
  unfolding search
  search-Wanted input db out f all h =
      let q = query_of repository parse_time input in
      let (facts, found, returned) =
        >>=-ok (λ facts. pure (record { facts = facts }))
          (of_store repository parse_time (repository.search_facts q)) db out h in
      let same : record { facts = facts } ≡ out = cc in
      let (there, back) =
        search_facts-Elem q db facts f all (lifted-ok (search_facts q db) facts found) in
      subst (λ (o : SearchOutput). Elem f o.facts ↔ (Elem f db.facts × Wanted input db.now f)) same
        (
          λ m. let (held, a) = there m in (held, Admits-Wanted input db.now f a),
          λ (held, w). back (held, Wanted-Admits input db.now f w),
        )

  abbrev pub matches : ForgetInput → Fact → Bool
  matches input = has_key input.scope_type input.scope_id input.key

  abbrev forgot : Result StoreError ℕ × Db → Result MemoryError ForgetOutput × Db
  forgot r = continue_with (λ n. pure (record { deleted = n })) (lifted repository parse_time r)

  forgot-ok :
      (r : Result StoreError ℕ × Db) (out : ForgetOutput)
      → (forgot r).0 ≡ ok out
      → (r.0 ≡ ok out.deleted) × ((forgot r).1 ≡ r.1)
  forgot-ok (ok n, db) out h = (ground arith, refl)
  forgot-ok (err e, db) out h = cc

  -- What a `forget` by key that succeeds has done.
  abbrev pub Forgets : ForgetInput → Db → ForgetOutput → Db → Type 0
  Forgets input db out after =
      (input.scope_type ≢ "")
      × (input.scope_id ≢ "")
      × (input.key ≢ "")
      × (after.facts ≡ filter (λ f. not (matches input f)) db.facts)
      × (out.deleted ≡ length (filter (matches input) db.facts))

  forget_key-Forgets :
      (input : ForgetInput) (db : Db) (out : ForgetOutput)
      → not (input.scope_type == "") && not (input.scope_id == "") && not (input.key == "") ≡ true
      → (forget_key repository parse_time input db).0 ≡ ok out
      → Forgets input db out (forget_key repository parse_time input db).1
  unfolding forget_facts_by_key
  forget_key-Forgets input db out whole h =
      let (answer, left) =
        forgot-ok (forget_facts_by_key input.scope_type input.scope_id input.key db) out h in
      let (number, tables) =
        modify-ok "forget facts by key" (facts_deleted (matches input)) db out.deleted answer in
      (
        ground arith,
        ground arith,
        ground arith,
        ap (λ (d : Db). d.facts) left ∙ ap (λ (t : Tables). t.facts) tables,
        number,
      )

  -- Without an id, a `forget` that succeeds had a whole scope and a key. It removes the facts of that
  -- scope with that key, no others, and answers how many they were.
  pub forget-Forgets :
      (input : ForgetInput) (db : Db) (out : ForgetOutput)
      → input.id ≡ ""
      → (forget repository parse_time input db).0 ≡ ok out
      → Forgets input db out (forget repository parse_time input db).1
  unfolding forget
  forget-Forgets input db out no_id =
      let P : Handler repository parse_time ForgetOutput → Type 0 =
        λ m. (m db).0 ≡ ok out → Forgets input db out (m db).1 in
      let whole =
        not (input.scope_type == "") && not (input.scope_id == "") && not (input.key == "") in
      if_elim P (not (input.id == "")) (forget_one repository parse_time input.id)
        (if whole then forget_key repository parse_time input else raise forget_requires)
        (λ e. absurd (ground arith))
        (λ _.
          if_elim P whole (forget_key repository parse_time input) (raise forget_requires)
            (forget_key-Forgets input db out) (λ _ h. cc))
