-- ===== src/Store/Facts/Isolation.antt =====
-- memory.go: a call for one scope does not change what a search in another scope finds, and the
-- retention job does not change what a search finds.
use sl_open_bark.Common.{
  ℕ, ◌≤◌, String, Bool, true, false, not, List, [], ◌∷◌, ◌++◌, Option, none, some, nat_eq,
  string_eq, arith, ◌≡◌, refl, ap, ◌∙◌, inl, inr, Bool-cases,
}
use mathlib.Core.List.{append-nil}
use sl_open_bark.Common.Lists.{filter, sort_by, filter-append, filter-filter}
use sl_open_bark.Store.Models.{Fact, FactInput, FactQuery}
use sl_open_bark.Store.Db.{Db, Tables}
use sl_open_bark.Store.Db.Laws.{select-cong, run_statement-tables, modify-tables, subst-some}
use sl_open_bark.Store.Facts.{
  valid_scope, write_fact, new_fact, selected, is_current, limited, newer, search_facts,
  forget_facts_by_key, has_key, delete_expired_facts, expired_by, facts_deleted, fact_inserted,
}
use sl_open_bark.Store.Facts.Scope.{rows_of, selected-Admits}

-- The tables let the query find what it found before.
abbrev SameRows : FactQuery → Db → Tables → Type 0
SameRows q db after = rows_of q db.now after.facts ≡ rows_of q db.now db.facts

search_facts-cong :
    (q : FactQuery) (db : Db) (after : Tables)
    → SameRows q db after
    → (search_facts q (record db { tables = after })).0 ≡ (search_facts q db).0
unfolding search_facts
search_facts-cong q db after e = elim (Bool-cases (valid_scope q.scope_type)) [
  | inl v ↦ rw v (select-cong "search facts" (λ t env. rows_of q env.now t.facts) db after e)
  | inr v ↦ rw v
]

abbrev pub SameScope : FactQuery → String → String → Type 0
SameScope q scope_type scope_id = (q.scope_type ≡ scope_type) × (q.scope_id ≡ scope_id)

other_scope :
    (q : FactQuery) (now : ℕ) (f : Fact)
    → ¬ SameScope q f.scope_type f.scope_id
    → selected q now f ≡ false
unfolding selected
other_scope q now f other = elim (Bool-cases (selected q now f)) [
  | inl yes_ ↦ absurd (other (ground arith))
  | inr no_ ↦ no_
]

rows_of-append :
    (q : FactQuery) (now : ℕ) (fs : List Fact) (f : Fact)
    → selected q now f ≡ false
    → rows_of q now (fs ++ f ∷ []) ≡ rows_of q now fs
rows_of-append q now fs f h =
    ap (λ rows. limited q.limit (sort_by newer rows))
      (filter-append (selected q now) fs (f ∷ []) ∙ rw h (append-nil (filter (selected q now) fs)))

rows_of-filter :
    (q : FactQuery) (now : ℕ) (fs : List Fact) (keep : Fact → Bool)
    → ((f : Fact) → selected q now f ≡ true → keep f ≡ true)
    → rows_of q now (filter keep fs) ≡ rows_of q now fs
rows_of-filter q now fs keep h =
    ap (λ rows. limited q.limit (sort_by newer rows)) (filter-filter (selected q now) keep h fs)

abbrev inserted : FactInput → Db → Fact × Tables
inserted input db =
    (new_fact input db.env, record db.tables { facts = db.facts ++ new_fact input db.env ∷ [] })

write_fact-SameRows :
    (q : FactQuery) (input : FactInput) (db : Db)
    → ¬ SameScope q input.scope_type input.scope_id
    → SameRows q db (write_fact input db).1.tables
unfolding write_fact
write_fact-SameRows q input db other = elim (Bool-cases (valid_scope input.scope_type)) [
  | inl v ↦ rw v (
      run_statement-tables "write fact" (fact_inserted input) (SameRows q db) _ db.faults db refl
        (λ a t e. subst-some (SameRows q db) (inserted input db) a t e (
          rows_of-append q db.now db.facts (new_fact input db.env)
            (other_scope q db.now (new_fact input db.env) other))))
  | inr v ↦ rw v
]

-- Writing a fact in one scope leaves what a search in any other scope returns as it was.
pub search_facts-write_fact :
    (q : FactQuery) (input : FactInput) (db : Db)
    → ¬ SameScope q input.scope_type input.scope_id
    → (search_facts q (record db { tables = (write_fact input db).1.tables })).0
      ≡ (search_facts q db).0
search_facts-write_fact q input db other =
    search_facts-cong q db _ (write_fact-SameRows q input db other)

has_key-other :
    (q : FactQuery) (now : ℕ) (scope_type scope_id key : String) (f : Fact)
    → ¬ SameScope q scope_type scope_id
    → selected q now f ≡ true
    → not (has_key scope_type scope_id key f) ≡ true
unfolding selected
has_key-other q now scope_type scope_id key f other h =
    elim (Bool-cases (has_key scope_type scope_id key f)) [
      | inl hit ↦ absurd (other (ground arith))
      | inr miss ↦ rw miss
    ]

-- Forgetting a key in one scope leaves what a search in any other scope returns as it was.
pub search_facts-forget_facts_by_key :
    (q : FactQuery) (scope_type scope_id key : String) (db : Db)
    → ¬ SameScope q scope_type scope_id
    → (search_facts q
        (record db { tables = (forget_facts_by_key scope_type scope_id key db).1.tables })).0
      ≡ (search_facts q db).0
unfolding forget_facts_by_key
search_facts-forget_facts_by_key q scope_type scope_id key db other = search_facts-cong q db _ (
    modify-tables "forget facts by key" (facts_deleted (has_key scope_type scope_id key))
      (SameRows q db) db refl
      (rows_of-filter q db.now db.facts _
        (λ f. has_key-other q db.now scope_type scope_id key f other)))

current-unexpired :
    (before now : ℕ) (e : Option ℕ)
    → before ≤ now
    → is_current now e ≡ true
    → not (expired_by before e) ≡ true
unfolding is_current
current-unexpired before now none h k = refl
current-unexpired before now (some t) h k = ground arith

selected-unexpired :
    (q : FactQuery) (before now : ℕ)
    → q.include_expired ≡ false
    → before ≤ now
    → (f : Fact) → selected q now f ≡ true
    → not (expired_by before f.expires_at) ≡ true
selected-unexpired q before now fresh past f h = elim (selected-Admits q now f h).current [
  | inl shown ↦ cc
  | inr current ↦ current-unexpired before now f.expires_at past current
]

-- The retention job, with a cutoff that is not in the future, leaves what a search that excludes
-- expired facts returns as it was.
pub search_facts-delete_expired_facts :
    (q : FactQuery) (before : ℕ) (db : Db)
    → q.include_expired ≡ false
    → before ≤ db.now
    → (search_facts q (record db { tables = (delete_expired_facts before db).1.tables })).0
      ≡ (search_facts q db).0
unfolding delete_expired_facts
search_facts-delete_expired_facts q before db fresh past = search_facts-cong q db _ (
    modify-tables "delete expired facts" (facts_deleted (λ f. expired_by before f.expires_at))
      (SameRows q db) db refl
      (rows_of-filter q db.now db.facts _ (selected-unexpired q before db.now fresh past)))
