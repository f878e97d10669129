-- ===== src/Store/Db/Laws.antt =====
-- What a statement returns, and what it leaves of the tables.
use mathlib.Core.Path.{subst}
use mathlib.Core.Option.{some-injective}
use sl_open_bark.Common.{
  Bool, true, false, List, [], ◌∷◌, Option, none, some, ◌≡◌, refl, ap, String, if◌then◌else◌,
}
use sl_open_bark.Common.Result.{ok, err, raise}
use sl_open_bark.Store.Db.{
  Tables, Env, Db, StoreError, Query, answer, run_statement, select, modify,
}

module _ {A : Type 0} (what : String) (read : Tables → Env → A) where
  run_select :
      (faults : List Bool) (db : Db) (a : A)
      → (run_statement what (λ t env. some (read t env, t)) (λ env. env) faults db).0 ≡ ok a
      → a ≡ read db.tables db.env
  run_select [] db a h = cc
  run_select (true ∷ rest) db a h = cc
  run_select (false ∷ rest) db a h = cc

  -- A read that succeeds returns what the tables hold.
  pub select-ok : (db : Db) (a : A) → (select what read db).0 ≡ ok a → a ≡ read db.tables db.env
  select-ok db a h = run_select db.faults db a h

  run_select-tables :
      (faults : List Bool) (db : Db)
      → (run_statement what (λ t env. some (read t env, t)) (λ env. env) faults db).1.tables
        ≡ db.tables
  run_select-tables [] db = refl
  run_select-tables (true ∷ rest) db = refl
  run_select-tables (false ∷ rest) db = refl

  -- A read changes no table.
  pub select-tables : (db : Db) → (select what read db).1.tables ≡ db.tables
  select-tables db = run_select-tables db.faults db

-- A call behind a guard succeeds only if the guard holds.
pub guarded-ok :
    {A : Type 0} (b : Bool) (m : Query A) (e : StoreError) (db : Db) (a : A)
    → ((if b then m else raise e) db).0 ≡ ok a
    → (b ≡ true) × ((m db).0 ≡ ok a)
guarded-ok true m e db a h = (refl, h)
guarded-ok false m e db a h = cc

module _ {A : Type 0} (what : String) (read : Tables → Env → A) where
  run_select-cong :
      (faults : List Bool) (before after : Tables) (env : Env)
      → read after env ≡ read before env
      → (run_statement what
          (λ t env. some (read t env, t))
          (λ env. env)
          faults
          (record { tables = after; env = env })).0
        ≡ (run_statement what
            (λ t env. some (read t env, t))
            (λ env. env)
            faults
            (record { tables = before; env = env })).0
  run_select-cong [] before after env e = ap ok e
  run_select-cong (true ∷ rest) before after env e = refl
  run_select-cong (false ∷ rest) before after env e = ap ok e

-- Two databases on which a read sees the same answer it alike.
pub select-cong :
    {A : Type 0} (what : String) (read : Tables → Env → A) (db : Db) (after : Tables)
    → read after db.env ≡ read db.tables db.env
    → (select what read (record db { tables = after })).0 ≡ (select what read db).0
select-cong what read db after e = run_select-cong what read db.faults db.tables after db.env e

module _ {A : Type 0} (what : String) (body : Tables → Env → Option (A × Tables))
    (P : Tables → Type 0) where
  answer-tables :
      (o : Option (A × Tables)) (env : Env) (db : Db)
      → P db.tables
      → ((a : A) (t : Tables) → o ≡ some (a, t) → P t)
      → P (answer what o env db).1.tables
  answer-tables none env db h k = h
  answer-tables (some (a, t)) env db h k = k a t refl

  -- A property of the tables after a statement: that of the tables before, or after its body.
  pub run_statement-tables :
      (draw : Env → Env) (faults : List Bool) (db : Db)
      → P db.tables
      → ((a : A) (t : Tables) → body db.tables db.env ≡ some (a, t) → P t)
      → P (run_statement what body draw faults db).1.tables
  run_statement-tables draw [] db h k = answer-tables (body db.tables db.env) (draw db.env) db h k
  run_statement-tables draw (true ∷ rest) db h k = h
  run_statement-tables draw (false ∷ rest) db h k =
      answer-tables (body db.tables db.env) (draw (record db.env { faults = rest })) db h k

-- What holds of the tables that a body returns, holds of the tables named in its result.
pub subst-some :
    {A : Type 0} (P : Tables → Type 0) (c : A × Tables) (a : A) (t : Tables)
    → some c ≡ some (a, t)
    → P c.1
    → P t
subst-some P c a t e k = subst (λ x. P x.1) (some-injective c (a, t) e) k

-- The same of a change that no constraint refuses.
pub modify-tables :
    {A : Type 0} (what : String) (change : Tables → Env → A × Tables) (P : Tables → Type 0)
    (db : Db)
    → P db.tables
    → P (change db.tables db.env).1
    → P (modify what change db).1.tables
modify-tables what change P db h k =
    run_statement-tables what (λ t env. some (change t env)) P (λ env. env) db.faults db h
      (λ a t e. subst-some P (change db.tables db.env) a t e k)

module _ {A : Type 0} (what : String) (change : Tables → Env → A × Tables) where
  run_modify-ok :
      (faults : List Bool) (db : Db) (a : A)
      → let out = run_statement what (λ t env. some (change t env)) (λ env. env) faults db in
        out.0 ≡ ok a
        → (a ≡ (change db.tables db.env).0) × (out.1.tables ≡ (change db.tables db.env).1)
  run_modify-ok [] db a h = (cc, refl)
  run_modify-ok (true ∷ rest) db a h = cc
  run_modify-ok (false ∷ rest) db a h = (cc, refl)

  -- What a change that succeeds answers, and the tables it leaves.
  pub modify-ok :
      (db : Db) (a : A)
      → (modify what change db).0 ≡ ok a
      → (a ≡ (change db.tables db.env).0)
        × ((modify what change db).1.tables ≡ (change db.tables db.env).1)
  modify-ok db a h = run_modify-ok db.faults db a h

  run_modify-err :
      (faults : List Bool) (db : Db) (e : StoreError)
      → let out = run_statement what (λ t env. some (change t env)) (λ env. env) faults db in
        out.0 ≡ err e → out.1.tables ≡ db.tables
  run_modify-err [] db e h = cc
  run_modify-err (true ∷ rest) db e h = refl
  run_modify-err (false ∷ rest) db e h = cc

  -- A change that fails leaves the tables as they were.
  pub modify-err :
      (db : Db) (e : StoreError)
      → (modify what change db).0 ≡ err e
      → (modify what change db).1.tables ≡ db.tables
  modify-err db e h = run_modify-err db.faults db e h

module _ {A : Type 0} (what : String) (body : Tables → Env → Option (A × Tables)) where
  answer-ok :
      (o : Option (A × Tables)) (env : Env) (db : Db) (a : A)
      → (answer what o env db).0 ≡ ok a
      → o ≡ some (a, (answer what o env db).1.tables)
  answer-ok none env db a h = cc
  answer-ok (some (b, t)) env db a h = cc

  -- A statement that succeeds has run its body.
  pub run_statement-ok :
      (draw : Env → Env) (faults : List Bool) (db : Db) (a : A)
      → (run_statement what body draw faults db).0 ≡ ok a
      → body db.tables db.env ≡ some (a, (run_statement what body draw faults db).1.tables)
  run_statement-ok draw [] db a h = answer-ok (body db.tables db.env) _ db a h
  run_statement-ok draw (true ∷ rest) db a h = cc
  run_statement-ok draw (false ∷ rest) db a h = answer-ok (body db.tables db.env) _ db a h
