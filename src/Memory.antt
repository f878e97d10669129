-- ===== src/Memory.antt =====
-- services/session-memory/internal/memory/tools.go: the Memory MCP's handlers over a fact store.
-- `parse_time` is `time.Parse(time.RFC3339, _)`, to the numbers that stand for times.
pub mod Scoped
use sl_open_bark.Common.{
  ℕ, String, Bool, true, false, not, ◌&&◌, List, Option, none, some, if◌then◌else◌, ◌==◌, string_eq,
}
use sl_open_bark.Common.Result.{Result, ok, err, Action, pure, raise, continue_with, ◌>>=◌, ◌>>◌}
use sl_open_bark.Store.Models.{Fact, FactInput, FactQuery}
use sl_open_bark.Store.Db.{Db, StoreError}
use sl_open_bark.Store.Facts.{write_fact, search_facts, forget_fact, forget_facts_by_key}

-- The slice of the store that the handlers need.
pub record FactStore : Type 1 where
  pub State : Type 0
  pub write_fact : FactInput → Action State StoreError Fact
  pub search_facts : FactQuery → Action State StoreError (List Fact)
  pub forget_fact : String → Action State StoreError Bool
  pub forget_facts_by_key : String → String → String → Action State StoreError ℕ

abbrev pub repository : FactStore
repository = record {
  State = Db;
  write_fact = write_fact;
  search_facts = search_facts;
  forget_fact = forget_fact;
  forget_facts_by_key = forget_facts_by_key;
}

pub record WriteFactInput : Type 0 where
  pub scope_type : String
  pub scope_id : String
  pub key : String
  pub value : String
  pub tags : List String
  pub source : String
  pub expires_at : String

-- A limit of 0 stands for every limit that is not positive.
pub record SearchInput : Type 0 where
  pub scope_type : String
  pub scope_id : String
  pub tags : List String
  pub limit : ℕ

pub record SearchOutput : Type 0 where
  pub facts : List Fact

pub record ForgetInput : Type 0 where
  pub id : String
  pub scope_type : String
  pub scope_id : String
  pub key : String

pub record ForgetOutput : Type 0 where
  pub deleted : ℕ

pub data MemoryError : Type 0 where
  invalid_expires_at : MemoryError
  forget_requires : MemoryError
  store_failed : StoreError → MemoryError

module _ (S : FactStore) (parse_time : String → Option ℕ) where
  abbrev pub Handler : Type 0 → Type 0
  Handler A = Action S.State MemoryError A

  abbrev lifted : {A : Type 0} → Result StoreError A × S.State → Result MemoryError A × S.State
  lifted (ok a, s) = (ok a, s)
  lifted (err e, s) = (err (store_failed e), s)

  abbrev pub of_store : {A : Type 0} → Action S.State StoreError A → Handler A
  of_store m s = lifted (m s)

  abbrev pub fact_input : WriteFactInput → Option ℕ → FactInput
  fact_input input expires_at = record {
    scope_type = input.scope_type;
    scope_id = input.scope_id;
    key = input.key;
    value = input.value;
    tags = input.tags;
    source = input.source;
    expires_at = expires_at;
  }

  abbrev write_until : WriteFactInput → Option ℕ → Handler Fact
  write_until input none = raise invalid_expires_at
  write_until input (some t) = of_store (S.write_fact (fact_input input (some t)))

  unfoldable pub write : WriteFactInput → Handler Fact
  write input =
      if input.expires_at == ""
      then of_store (S.write_fact (fact_input input none))
      else write_until input (parse_time input.expires_at)

  abbrev pub query_of : SearchInput → FactQuery
  query_of input = record {
    scope_type = input.scope_type;
    scope_id = input.scope_id;
    tags = input.tags;
    limit = input.limit;
    include_expired = false;
  }

  unfoldable pub search : SearchInput → Handler SearchOutput
  search input = do
    facts ← of_store (S.search_facts (query_of input))
    pure (record { facts = facts })

  abbrev forget_one : String → Handler ForgetOutput
  forget_one id = do
    found ← of_store (S.forget_fact id)
    pure (record { deleted = if found then 1 else 0 })

  abbrev forget_key : ForgetInput → Handler ForgetOutput
  forget_key input = do
    n ← of_store (S.forget_facts_by_key input.scope_type input.scope_id input.key)
    pure (record { deleted = n })

  unfoldable pub forget : ForgetInput → Handler ForgetOutput
  forget input =
      if not (input.id == "")
      then forget_one input.id
      else if not (input.scope_type == "") && not (input.scope_id == "") && not (input.key == "")
      then forget_key input
      else raise forget_requires
