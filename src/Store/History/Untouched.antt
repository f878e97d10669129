-- ===== src/Store/History/Untouched.antt =====
-- The store over time: the operations that leave the approvals alone.
use sl_open_bark.Common.{
  suc, String, Bool, true, false, Option, none, some, if◌then◌else◌, string_eq, nat_eq, contains,
  ◌≡◌, refl, ◌∙◌, arith, if_elim,
}
use sl_open_bark.Common.Lists.{any, update}
use sl_open_bark.Common.Result.{Result, ok, err, raise, continue_with}
use sl_open_bark.Store.Models.{Fact, FactInput, User, ServerInput, ServerRow}
use sl_open_bark.Store.Db.{StoreError, Db, Env, Tables, Query, invalid_scope, run_statement}
use sl_open_bark.Store.Db.Laws.{run_statement-tables, subst-some}
use sl_open_bark.Store.Facts.{
  write_fact, insert_fact, fact_inserted, valid_scope, forget_fact, forget_facts_by_key,
  delete_expired_facts,
}
use sl_open_bark.Store.Governance.{write_audit, age_out_audit}
use sl_open_bark.Store.Identity.{put_user, upsert_user, set_committee_role, remove_committee_role}
use sl_open_bark.Store.Sessions.{
  affected, has_session_id, create_session, update_session_status, add_turn, upsert_summary,
}
use sl_open_bark.Store.Registry.{
  put_server, update_server, set_server_lifecycle, set_server_enabled, lifecycles,
}
use sl_open_bark.Store.Registry.Kept.{register_server-keeps}
use sl_open_bark.Store.History.{
  Operation, elapse, request, decision, audit_row, audit_aged, fact, forget, forget_key, expire,
  user, role, role_removed, session, session_status, turn, summary, registration, lifecycle,
  enabled, run,
}

-- The rows of approvals are those of before.
unfoldable pub Kept : Tables → Tables → Type 0
Kept t u = u.approvals ≡ t.approvals

pub same : (t u : Tables) → u.approvals ≡ t.approvals → Kept t u
unfolding Kept
same t u e = e

Kept-trans : (t u v : Tables) → Kept t u → Kept u v → Kept t v
unfolding Kept
Kept-trans t u v h k = k ∙ h

module _ {A : Type 0} (what : String) (draw : Env → Env) where
  -- A statement whose body leaves the approvals alone does so.
  statement-Kept :
      (body : Tables → Env → Option (A × Tables))
      → ((t : Tables) (env : Env) (a : A) (u : Tables) → body t env ≡ some (a, u) → Kept t u)
      → (db : Db) → Kept db.tables (run_statement what body draw db.faults db).1.tables
  statement-Kept body h db =
      run_statement-tables what body (Kept db.tables) draw db.faults db
        (same db.tables db.tables refl) (h db.tables db.env)

  change-Kept :
      (c : Tables → Env → A × Tables)
      → ((t : Tables) (env : Env) → Kept t (c t env).1)
      → (db : Db)
      → Kept db.tables (run_statement what (λ t env. some (c t env)) draw db.faults db).1.tables
  change-Kept c h =
      statement-Kept (λ t env. some (c t env))
        λ t env a u e. subst-some (Kept t) (c t env) a u e (h t env)

  guarded-Kept :
      (b : Tables → Env → Bool) (c : Tables → Env → A × Tables)
      → ((t : Tables) (env : Env) → Kept t (c t env).1)
      → (db : Db)
      → Kept db.tables
          (run_statement what
            (λ t env. if b t env then some (c t env) else none)
            draw
            db.faults
            db).1.tables
  guarded-Kept b c h =
      statement-Kept (λ t env. if b t env then some (c t env) else none)
        λ t env a u.
          if_elim (λ o. o ≡ some (a, u) → Kept t u) (b t env) (some (c t env)) none
            (λ _ e. subst-some (Kept t) (c t env) a u e (h t env)) (λ _ e. cc)

pub affected-Kept :
    (t : Tables) (r : Result StoreError Bool × Db)
    → Kept t r.1.tables
    → Kept t (continue_with affected r).1.tables
affected-Kept t (ok true, db) h = h
affected-Kept t (ok false, db) h = h
affected-Kept t (err e, db) h = h

put_user-Kept :
    (slack_id name email : String) (t : Tables) (env : Env) (found : Option User)
    → Kept t (put_user slack_id name email t env found).1
put_user-Kept slack_id name email t env none = same t _ refl
put_user-Kept slack_id name email t env (some u) = same t _ refl

put_server-Kept :
    (input : ServerInput) (t : Tables) (env : Env) (found : Option ServerRow)
    → Kept t (put_server input t env found).1
put_server-Kept input t env none = same t _ refl
put_server-Kept input t env (some s) = same t _ refl

update_server-Kept :
    (name : String) (f : ServerRow → ServerRow) (allowed : Bool) (t : Tables) (b : Bool)
    (u : Tables)
    → update_server name f allowed t ≡ some (b, u)
    → Kept t u
update_server-Kept name f allowed t b u e = same t u (ground arith)

abbrev pub as_it_is : Env → Env
as_it_is env = env

abbrev pub new_uuid : Env → Env
new_uuid env = record env { next_uuid = suc env.next_uuid }

abbrev pub new_identity : Env → Env
new_identity env = record env { next_identity = suc env.next_identity }

-- The operations on other tables.
module _ (db : Db) where
  insert_fact-Kept : (input : FactInput) → Kept db.tables (insert_fact input db).1.tables
  insert_fact-Kept input =
      statement-Kept "write fact" new_uuid (fact_inserted input) (λ t env a u e. same t u (cc)) db

  write_fact-Kept : (input : FactInput) → Kept db.tables (write_fact input db).1.tables
  unfolding write_fact
  write_fact-Kept input =
      if_elim (λ (m : Query Fact). Kept db.tables (m db).1.tables) (valid_scope input.scope_type)
        (insert_fact input) (raise (invalid_scope input.scope_type)) (λ _. insert_fact-Kept input)
        (λ _. same db.tables _ refl)

  status_changed : String → String → Tables → Env → Bool × Tables
  status_changed id status t env = (
    any (has_session_id id) t.sessions,
    record t {
      sessions =
          update (has_session_id id) (λ s. record s { status = status; updated_at = env.now })
            t.sessions;
    },
  )

  -- Whatever is no request and no decision leaves the approvals alone.
  unfoldable pub Untouched : Operation → Type 0
  Untouched (request session_id tool args) = Unit
  Untouched (decision id status by) = Unit
  Untouched op = Kept db.tables (run op db).tables

  pub run-Kept : (op : Operation) → Untouched op
  unfolding status_changed Untouched run write_audit age_out_audit forget_fact forget_facts_by_key
      delete_expired_facts upsert_user set_committee_role remove_committee_role create_session
      update_session_status add_turn upsert_summary set_server_lifecycle set_server_enabled
  run-Kept (elapse env) = same db.tables _ refl
  run-Kept (request session_id tool args) = tt
  run-Kept (decision id status by) = tt
  run-Kept (audit_row input) = guarded-Kept "write audit" new_identity _ _ (λ t env. search same) db
  run-Kept (audit_aged before) = change-Kept "age out audit" as_it_is _ (λ t env. search same) db
  run-Kept (fact input) = write_fact-Kept input
  run-Kept (forget id) = change-Kept "forget fact" as_it_is _ (λ t env. search same) db
  run-Kept (forget_key scope_type scope_id key) =
      change-Kept "forget facts by key" as_it_is _ (λ t env. search same) db
  run-Kept (expire before) = change-Kept "delete expired facts" as_it_is _ (λ t env. search same) db
  run-Kept (user slack_id name email) =
      change-Kept "upsert user" new_uuid _ (λ t env. put_user-Kept slack_id name email t env _) db
  run-Kept (role user_id committee name) =
      guarded-Kept "set committee role" as_it_is _ _ (λ t env. search same) db
  run-Kept (role_removed user_id committee) =
      change-Kept "remove committee role" as_it_is _ (λ t env. search same) db
  run-Kept (session user_id channel thread_ts recipe) =
      guarded-Kept "create session" new_uuid _ _ (λ t env. search same) db
  run-Kept (session_status id status) = affected-Kept db.tables _ (
      change-Kept "update session status" as_it_is (status_changed id status)
        (λ t env. same t _ refl) db)
  run-Kept (turn session_id name content tokens) =
      guarded-Kept "add turn" new_identity _ _ (λ t env. search same) db
  run-Kept (summary session_id text) =
      statement-Kept "upsert summary" as_it_is _ (λ t env a u e. same t u (ground arith)) db
  run-Kept (registration input) =
      register_server-keeps (Kept db.tables)
        (record {
          put = λ input t env found _ h.
              Kept-trans db.tables t _ h (put_server-Kept input t env found);
          tools = λ t xs h. Kept-trans db.tables t _ h (same t _ refl);
          grants = λ t gs h. Kept-trans db.tables t _ h (same t _ refl);
        })
        input db (same db.tables db.tables refl)
  run-Kept (lifecycle name to) = affected-Kept db.tables _ (
      statement-Kept "set lifecycle" as_it_is _
        (λ t env b u.
          update_server-Kept name (λ s. record s { lifecycle = to; updated_at = env.now })
            (contains lifecycles to) t b u)
        db)
  run-Kept (enabled name on) = affected-Kept db.tables _ (
      statement-Kept "set enabled" as_it_is _
        (λ t env b u.
          update_server-Kept name (λ s. record s { enabled = on; updated_at = env.now }) true t b u)
        db)
