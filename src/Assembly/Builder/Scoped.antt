-- ===== src/Assembly/Builder/Scoped.antt =====
-- builder.go: what the context of a turn is made of.
use sl_open_bark.Common.{
  ℕ, suc, String, not, ◌&&◌, ltb, false, Option, List, [], none, some, ◌==◌, string_eq, ◌≡◌, ◌≢◌,
  ◌<◌, ◌⊎◌, inl, inr, refl, ap, sym, ◌∙◌, if_elim, arith,
}
use sl_open_bark.Common.Int.{pos}
use sl_open_bark.Common.Result.{Result, ok, err, pure, raise, >>=-ok, >>=-keeps}
use sl_open_bark.Common.Text.{trim_space}
use sl_open_bark.Store.Models.{Fact, FactQuery, Summary, Turn}
use sl_open_bark.Store.Db.{
  Db, Query, StoreError, select, not_found, database, invalid_scope, name_and_endpoint_required,
}
use sl_open_bark.Store.Db.Laws.{select-tables}
use sl_open_bark.Store.Facts.{search_facts, find_facts, valid_scope}
use sl_open_bark.Store.Governance.{or_not_found}
use sl_open_bark.Store.Sessions.{get_summary, list_turns}
use sl_open_bark.Assembly.{Bytes, Assembled, Packed, TokenCounter, assemble, assembled}
use sl_open_bark.Assembly.Budget.{Budgeted, assemble-Budgeted}
use sl_open_bark.Assembly.Builder.{
  TurnInput, memory_query, retrieve_memory, retrieve_summary, retrieve_turns, summary_or_blank,
  parts_of, build,
}

-- What the store finds for the turn's scope and tags, as many facts as the turn asks for and none
-- that has expired; no fact, if the turn names no whole scope.
abbrev pub FactsOf : TurnInput → Db → List Fact → Type 0
FactsOf input db facts =
    ((input.scope_type ≢ "")
      × (input.scope_id ≢ "")
      × ((search_facts
            (record {
              scope_type = input.scope_type;
              scope_id = input.scope_id;
              tags = input.memory_tags;
              limit = input.memory_top_k;
              include_expired = false;
            })
            db).0
          ≡ ok facts))
    ⊎ (((input.scope_type ≡ "") ⊎ (input.scope_id ≡ "")) × (facts ≡ []))

-- The summary of the turn's session, trimmed; none, if the turn has no session or the store no summary
-- of it.
abbrev pub SummaryOf : TurnInput → Db → String → Type 0
SummaryOf input db summary =
    ((input.session_id ≡ "") × (summary ≡ ""))
    ⊎ ((input.session_id ≢ "")
        × (((get_summary input.session_id db).0 ≡ err not_found) × (summary ≡ "")))
    ⊎ ((s : Summary) × (input.session_id ≢ "")
        × ((get_summary input.session_id db).0 ≡ ok s)
        × (summary ≡ trim_space s.summary))

-- The last turns of the turn's session, as many as the turn asks for.
abbrev pub TurnsOf : TurnInput → Db → List Turn → Type 0
TurnsOf input db turns =
    ((input.session_id ≢ "")
      × (0 < input.recent_turns)
      × ((list_turns input.session_id input.recent_turns db).0 ≡ ok turns))
    ⊎ (((input.session_id ≡ "") ⊎ (input.recent_turns ≡ 0)) × (turns ≡ []))

retrieve_memory-FactsOf :
    (input : TurnInput) (db : Db) (facts : List Fact)
    → (retrieve_memory input db).0 ≡ ok facts
    → FactsOf input db facts
unfolding retrieve_memory
retrieve_memory-FactsOf input db facts =
    if_elim (λ (m : Query (List Fact)). (m db).0 ≡ ok facts → FactsOf input db facts)
      (not (input.scope_type == "") && not (input.scope_id == ""))
      (search_facts (memory_query input)) (pure []) (λ whole h. inl (ground arith, ground arith, h))
      (λ part h. inr (ground arith, cc))

retrieve_turns-TurnsOf :
    (input : TurnInput) (db : Db) (turns : List Turn)
    → (retrieve_turns input db).0 ≡ ok turns
    → TurnsOf input db turns
unfolding retrieve_turns
retrieve_turns-TurnsOf input db turns =
    if_elim (λ (m : Query (List Turn)). (m db).0 ≡ ok turns → TurnsOf input db turns)
      (not (input.session_id == "") && ltb 0 input.recent_turns)
      (list_turns input.session_id input.recent_turns) (pure [])
      (λ whole h. inl (ground arith, ground arith, h)) (λ part h. inr (ground arith, cc))

abbrev Summed : Result StoreError Summary → String → Type 0
Summed r summary =
    ((r ≡ err not_found) × (summary ≡ ""))
    ⊎ ((s : Summary) × (r ≡ ok s) × (summary ≡ trim_space s.summary))

summary_or_blank-Summed :
    (r : Result StoreError Summary × Db) (summary : String)
    → (summary_or_blank r).0 ≡ ok summary
    → Summed r.0 summary
summary_or_blank-Summed (ok s, db) summary h = inr (s, refl, cc)
summary_or_blank-Summed (err not_found, db) summary h = inl (refl, cc)
summary_or_blank-Summed (err (invalid_scope t), db) summary h = cc
summary_or_blank-Summed (err name_and_endpoint_required, db) summary h = cc
summary_or_blank-Summed (err (database what), db) summary h = cc

retrieve_summary-SummaryOf :
    (input : TurnInput) (db : Db) (summary : String)
    → (retrieve_summary input db).0 ≡ ok summary
    → SummaryOf input db summary
unfolding retrieve_summary
retrieve_summary-SummaryOf input db summary =
    if_elim (λ (r : Result StoreError String × Db). r.0 ≡ ok summary → SummaryOf input db summary)
      (input.session_id == "") (ok "", db) (summary_or_blank (get_summary input.session_id db))
      (λ blank h. inl (ground arith, cc))
      (λ named h. elim (summary_or_blank-Summed (get_summary input.session_id db) summary h) [
        | inl (missing, e) ↦ inr (inl (ground arith, (missing, e)))
        | inr (s, held, e) ↦ inr (inr (s, ground arith, held, e))
      ])

search_facts-tables : (q : FactQuery) (db : Db) → (search_facts q db).1.tables ≡ db.tables
unfolding search_facts
search_facts-tables q db =
    if_elim (λ (m : Query (List Fact)). (m db).1.tables ≡ db.tables) (valid_scope q.scope_type)
      (find_facts q) (raise (invalid_scope q.scope_type)) (λ _. select-tables "search facts" _ db)
      (λ _. refl)

retrieve_memory-tables :
    (input : TurnInput) (db : Db) → (retrieve_memory input db).1.tables ≡ db.tables
unfolding retrieve_memory
retrieve_memory-tables input db =
    if_elim (λ (m : Query (List Fact)). (m db).1.tables ≡ db.tables)
      (not (input.scope_type == "") && not (input.scope_id == ""))
      (search_facts (memory_query input)) (pure [])
      (λ _. search_facts-tables (memory_query input) db) (λ _. refl)

found-db : (o : Option Summary) (db : Db) → (or_not_found o db).1 ≡ db
found-db none db = refl
found-db (some s) db = refl

get_summary-tables : (id : String) (db : Db) → (get_summary id db).1.tables ≡ db.tables
unfolding get_summary
get_summary-tables id db =
    >>=-keeps (λ (d : Db). d.tables ≡ db.tables) (select "get summary" _) or_not_found db
      (select-tables "get summary" _ db) (λ o d k. ap (λ (x : Db). x.tables) (found-db o d) ∙ k)

summary_or_blank-db : (r : Result StoreError Summary × Db) → (summary_or_blank r).1 ≡ r.1
summary_or_blank-db (ok s, db) = refl
summary_or_blank-db (err not_found, db) = refl
summary_or_blank-db (err (invalid_scope t), db) = refl
summary_or_blank-db (err name_and_endpoint_required, db) = refl
summary_or_blank-db (err (database what), db) = refl

retrieve_summary-tables :
    (input : TurnInput) (db : Db) → (retrieve_summary input db).1.tables ≡ db.tables
unfolding retrieve_summary
retrieve_summary-tables input db =
    if_elim (λ (r : Result StoreError String × Db). r.1.tables ≡ db.tables) (input.session_id == "")
      (ok "", db) (summary_or_blank (get_summary input.session_id db)) (λ _. refl)
      (λ _.
        ap (λ (x : Db). x.tables) (summary_or_blank-db (get_summary input.session_id db))
        ∙ get_summary-tables input.session_id db)

-- A database with the same tables.
abbrev pub Same : Db → Db → Type 0
Same db d = d.tables ≡ db.tables

module _ (utf8 : String → Bytes) (count : TokenCounter) where
  -- A context that is built under a budget of b + 1 tokens is the assembly, within that budget, of
  -- the turn's parts in the order of their priority: the facts that the store finds for the turn's
  -- scope and tags, the summary of its session and the last turns of its session, each read from the
  -- tables as they were.
  pub build-Budgeted :
      (input : TurnInput) (b : ℕ) (db : Db) (out : Assembled)
      → input.budget ≡ pos (suc b)
      → (build utf8 (some count) input db).0 ≡ ok out
      → (facts : List Fact) × (summary : String) × (turns : List Turn) × (r : Packed) × FactsOf
          input db facts
        × ((d : Db) × Same db d × SummaryOf input d summary)
        × ((d : Db) × Same db d × TurnsOf input d turns)
        × (out ≡ assembled r)
        × Budgeted count (suc b) 0 (parts_of utf8 (some count) input facts summary turns) r
  unfolding build
  build-Budgeted input b db out e h =
      let (facts, found, h₁) = >>=-ok _ (retrieve_memory input) db out h in
      let d₁ = (retrieve_memory input db).1 in
      let (summary, sh, h₂) = >>=-ok _ (retrieve_summary input) d₁ out h₁ in
      let d₂ = (retrieve_summary input d₁).1 in
      let (turns, th, h₃) = >>=-ok _ (retrieve_turns input) d₂ out h₂ in
      let parts = parts_of utf8 (some count) input facts summary turns in
      let (r, is, within) = assemble-Budgeted count b parts in
      let made : assemble parts input.budget (some count) ≡ out = cc in
      let same₁ = retrieve_memory-tables input db in
      (
        facts,
        summary,
        turns,
        r,
        retrieve_memory-FactsOf input db facts found,
        (d₁, same₁, retrieve_summary-SummaryOf input d₁ summary sh),
        (d₂, retrieve_summary-tables input d₁ ∙ same₁, retrieve_turns-TurnsOf input d₂ turns th),
        sym made ∙ ap (λ z. assemble parts z (some count)) e ∙ is,
        within,
      )
