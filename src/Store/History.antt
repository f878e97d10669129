-- ===== src/Store/History.antt =====
-- services/session-memory/store: what can happen to the tables of the repository, operation by
-- operation. Its methods share the tables only, so a history is a list of calls.
pub mod Untouched
pub mod Warranted
use sl_open_bark.Common.{ℕ, String, Bool, List, [], ◌∷◌}
use sl_open_bark.Store.Models.{RawMessage, FactInput, AuditInput, ServerInput}
use sl_open_bark.Store.Db.{Env, Db}
use sl_open_bark.Store.Facts.{write_fact, forget_fact, forget_facts_by_key, delete_expired_facts}
use sl_open_bark.Store.Governance.{create_approval, decide_approval, write_audit, age_out_audit}
use sl_open_bark.Store.Identity.{upsert_user, set_committee_role, remove_committee_role}
use sl_open_bark.Store.Sessions.{create_session, update_session_status, add_turn, upsert_summary}
use sl_open_bark.Store.Registry.{register_server, set_server_lifecycle, set_server_enabled}

-- A call of a method that changes tables. `elapse` is what the environment does between calls, the
-- statements that only read included: time passes, ids are drawn, and statements are set to fail.
pub data Operation : Type 0 where
  elapse : Env → Operation
  request : String → String → RawMessage → Operation
  decision : String → String → String → Operation
  audit_row : AuditInput → Operation
  audit_aged : ℕ → Operation
  fact : FactInput → Operation
  forget : String → Operation
  forget_key : String → String → String → Operation
  expire : ℕ → Operation
  user : String → String → String → Operation
  role : String → String → String → Operation
  role_removed : String → String → Operation
  session : String → String → String → String → Operation
  session_status : String → String → Operation
  turn : String → String → String → ℕ → Operation
  summary : String → String → Operation
  registration : ServerInput → Operation
  lifecycle : String → String → Operation
  enabled : String → Bool → Operation

-- The database that an operation leaves, also where it fails.
unfoldable pub run : Operation → Db → Db
run (elapse env) db = record db { env = env }
run (request session_id tool args) db = (create_approval session_id tool args db).1
run (decision id status by) db = (decide_approval id status by db).1
run (audit_row input) db = (write_audit input db).1
run (audit_aged before) db = (age_out_audit before db).1
run (fact input) db = (write_fact input db).1
run (forget id) db = (forget_fact id db).1
run (forget_key scope_type scope_id key) db = (forget_facts_by_key scope_type scope_id key db).1
run (expire before) db = (delete_expired_facts before db).1
run (user slack_id name email) db = (upsert_user slack_id name email db).1
run (role user_id committee name) db = (set_committee_role user_id committee name db).1
run (role_removed user_id committee) db = (remove_committee_role user_id committee db).1
run (session user_id channel thread_ts recipe) db =
    (create_session user_id channel thread_ts recipe db).1
run (session_status id status) db = (update_session_status id status db).1
run (turn session_id name content tokens) db = (add_turn session_id name content tokens db).1
run (summary session_id text) db = (upsert_summary session_id text db).1
run (registration input) db = (register_server input db).1
run (lifecycle name to) db = (set_server_lifecycle name to db).1
run (enabled name on) db = (set_server_enabled name on db).1

unfoldable pub history : List Operation → Db → Db
unfolding run
history [] db = db
history (op ∷ ops) db = history ops (run op db)
