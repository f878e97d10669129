-- ===== src/Store/Facts/Scope.antt =====
-- memory.go: no call reads or changes another principal's facts.
use sl_open_bark.Common.{
  ℕ, zero, suc, ◌≤◌, String, true, List, [], ◌∷◌, nat_eq, string_eq, arith, ◌≡◌, refl, ap, ◌∙◌, ◌⊎◌,
  inl, inr, ◌↔◌,
}
use sl_open_bark.Common.Lists.{
  length, filter, sort_by, All, All-take, All-sort_by, filter-All, length-take,
}
use sl_open_bark.Common.Members.{Elem, Elem-filter, filter-Elem, sort_by-Elem, Elem-sort_by}
use sl_open_bark.Common.Result.{ok}
use sl_open_bark.Store.Models.{Fact, FactQuery}
use sl_open_bark.Store.Db.{Db}
use sl_open_bark.Store.Db.Laws.{select-ok, guarded-ok}
use sl_open_bark.Store.Facts.{
  valid_scope, selected, is_current, overlaps, tags_pass, limited, newer, search_facts, find_facts,
}

-- The rows of an answer, from the tables alone.
abbrev pub rows_of : FactQuery → ℕ → List Fact → List Fact
rows_of q now facts = limited q.limit (sort_by newer (filter (selected q now) facts))

pub search_facts-rows :
    (q : FactQuery) (db : Db) (fs : List Fact)
    → (search_facts q db).0 ≡ ok fs
    → fs ≡ rows_of q db.now db.facts
unfolding search_facts
search_facts-rows q db fs h =
    select-ok "search facts" (λ t env. rows_of q env.now t.facts) db fs
      (guarded-ok (valid_scope q.scope_type) (find_facts q) _ db fs h).1

-- What a query admits: its scope, its tags if it names any, and facts that have not expired unless
-- it asks for those too.
pub record Admits (q : FactQuery) (now : ℕ) (f : Fact) : Type 0 where
  pub same_type : f.scope_type ≡ q.scope_type
  pub same_scope : f.scope_id ≡ q.scope_id
  pub current : (q.include_expired ≡ true) ⊎ (is_current now f.expires_at ≡ true)
  pub tagged : (q.tags ≡ []) ⊎ (overlaps f.tags q.tags ≡ true)

tags_pass-cases :
    (wanted tags : List String)
    → tags_pass wanted tags ≡ true
    → (wanted ≡ []) ⊎ (overlaps tags wanted ≡ true)
tags_pass-cases [] tags h = inl refl
tags_pass-cases (w ∷ ws) tags h = inr h

cases-tags_pass :
    (wanted tags : List String)
    → (wanted ≡ []) ⊎ (overlaps tags wanted ≡ true)
    → tags_pass wanted tags ≡ true
cases-tags_pass [] tags h = refl
cases-tags_pass (w ∷ ws) tags h = ground arith

pub selected-Admits :
    (q : FactQuery) (now : ℕ) (f : Fact) → selected q now f ≡ true → Admits q now f
unfolding selected
selected-Admits q now f h = ground (arith, tags_pass-cases q.tags f.tags)

Admits-selected : (q : FactQuery) (now : ℕ) (f : Fact) → Admits q now f → selected q now f ≡ true
unfolding selected
Admits-selected q now f a = ground (arith, cases-tags_pass q.tags f.tags)

limited-All {κ} : (P : Fact → Type κ) (n : ℕ) (fs : List Fact) → All P fs → All P (limited n fs)
limited-All P zero fs h = h
limited-All P (suc n) fs h = All-take P (suc n) fs h

All-weaken {κ μ} :
    (P : Fact → Type κ) (Q : Fact → Type μ)
    → ((f : Fact) → P f → Q f)
    → (fs : List Fact) → All P fs
    → All Q fs
All-weaken P Q h [] a = tt
All-weaken P Q h (f ∷ fs) (p, a) = (h f p, All-weaken P Q h fs a)

pub selected_rows :
    (q : FactQuery) (now : ℕ) (fs : List Fact) → All (Admits q now) (rows_of q now fs)
selected_rows q now fs = limited-All _ q.limit _ (
    All-sort_by newer _ _
      (All-weaken _ _ (selected-Admits q now) _ (filter-All (selected q now) fs)))

length-limited : (n : ℕ) (fs : List Fact) → length (limited (suc n) fs) ≤ suc n
length-limited n fs = omega (arith, length-take (suc n) fs)

-- Every fact that a search returns stands in the scope of the query, carries one of its tags if it
-- names tags, and has not expired unless the query asks for expired facts too.
pub search_facts-Admits :
    (q : FactQuery) (db : Db) (fs : List Fact)
    → (search_facts q db).0 ≡ ok fs
    → All (Admits q db.now) fs
search_facts-Admits q db fs h = rw (search_facts-rows q db fs h) (selected_rows q db.now db.facts)

-- A search without a limit that succeeds returns a fact exactly if the table holds it and the query admits it.
pub search_facts-Elem :
    (q : FactQuery) (db : Db) (fs : List Fact) (f : Fact)
    → q.limit ≡ 0
    → (search_facts q db).0 ≡ ok fs
    → Elem f fs ↔ (Elem f db.facts × Admits q db.now f)
search_facts-Elem q db fs f all h =
    let rows : fs ≡ sort_by newer (filter (selected q db.now) db.facts) =
      search_facts-rows q db fs h
      ∙ ap (λ n. limited n (sort_by newer (filter (selected q db.now) db.facts))) all in
    rw rows (
      λ m.
          let (held, passed) =
            filter-Elem (selected q db.now) f db.facts (sort_by-Elem newer f _ m) in
          (held, selected-Admits q db.now f passed),
      λ (held, admitted).
          Elem-sort_by newer f _
            (Elem-filter (selected q db.now) f db.facts held (Admits-selected q db.now f admitted)),
    )
