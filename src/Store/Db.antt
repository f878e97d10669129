-- ===== src/Store/Db.antt =====
-- The Postgres database that the store's statements run on: its tables, as the schema of
-- services/session-memory/store/migrations declares them, and what the program does not decide,
-- which is the clock, the generated ids, and the statements that fail.
pub mod Laws
use sl_open_bark.Common.{ℕ, suc, String, Bool, true, false, List, [], ◌∷◌, Option, none, some}
use sl_open_bark.Common.Result.{Result, ok, err, Action}
use sl_open_bark.Store.Models.{
  User, CommitteeRole, Session, Turn, Summary, Fact, Approval, AuditEntry, ServerRow, Tool,
}

-- A row of server_committees.
pub record Grant : Type 0 where
  pub server_id : String
  pub committee : String

-- Rows stand in the order of their insertion.
pub record Tables : Type 0 where
  pub users : List User
  pub roles : List CommitteeRole
  pub sessions : List Session
  pub turns : List Turn
  pub summaries : List Summary
  pub facts : List Fact
  pub approvals : List Approval
  pub audit : List AuditEntry
  pub servers : List ServerRow
  pub tools : List Tool
  pub grants : List Grant

-- `faults` says of each of the next statements whether it fails; those after the list succeed.
-- `next_uuid` counts the calls of gen_random_uuid(), and `next_identity` those of an identity column.
pub record Env : Type 0 where
  pub now : ℕ
  pub uuid : ℕ → String
  pub next_uuid : ℕ
  pub next_identity : ℕ
  pub faults : List Bool

pub record Db : Type 0 where
  pub tables : Tables
  pub open tables use *
  pub env : Env
  pub open env use *

-- store.ErrNotFound, and the other errors by what they say. `database what` is the error of a
-- statement under the prefix "store: what".
pub data StoreError : Type 0 where
  not_found : StoreError
  invalid_scope : String → StoreError
  name_and_endpoint_required : StoreError
  database : String → StoreError

-- A call of a method of the repository.
abbrev pub Query : Type 0 → Type 0
Query A = Action Db StoreError A

abbrev pub answer :
    {A : Type 0} → String → Option (A × Tables) → Env → Db → Result StoreError A × Db
answer what none env db = (err (database what), record db { env = env })
answer what (some (a, tables)) env db = (ok a, record { tables = tables; env = env })

abbrev pub run_statement :
    {A : Type 0}
    → String
    → (Tables → Env → Option (A × Tables))
    → (Env → Env)
    → List Bool
    → Db
    → Result StoreError A × Db
run_statement what body draw [] db = answer what (body db.tables db.env) (draw db.env) db
run_statement what body draw (true ∷ rest) db =
    (err (database what), record db { env = record db.env { faults = rest } })
run_statement what body draw (false ∷ rest) db =
    answer what (body db.tables db.env) (draw (record db.env { faults = rest })) db

-- One statement. It fails when the environment says so, or when a constraint refuses it (`none`);
-- it then changes no table.
abbrev pub statement : {A : Type 0} → String → (Tables → Env → Option (A × Tables)) → Query A
statement what body db = run_statement what body (λ env. env) db.faults db

-- A statement that takes a generated id of a table.
abbrev pub insert_uuid : {A : Type 0} → String → (Tables → Env → Option (A × Tables)) → Query A
insert_uuid what body db =
    run_statement what body (λ env. record env { next_uuid = suc env.next_uuid }) db.faults db

abbrev pub insert_identity : {A : Type 0} → String → (Tables → Env → Option (A × Tables)) → Query A
insert_identity what body db =
    run_statement what body (λ env. record env { next_identity = suc env.next_identity }) db.faults
      db

-- A read.
abbrev pub select : {A : Type 0} → String → (Tables → Env → A) → Query A
select what read = statement what (λ t env. some (read t env, t))

-- A change that no constraint refuses, with its answer.
abbrev pub modify : {A : Type 0} → String → (Tables → Env → A × Tables) → Query A
modify what change = statement what (λ t env. some (change t env))

-- `defer tx.Rollback()`: an error puts the tables back.
abbrev pub roll_back : {A : Type 0} → Tables → Result StoreError A × Db → Result StoreError A × Db
roll_back before (ok a, db) = (ok a, db)
roll_back before (err e, db) = (err e, record db { tables = before })

abbrev pub transaction : {A : Type 0} → Query A → Query A
transaction body db = roll_back db.tables (body db)
