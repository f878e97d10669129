-- ===== src/Store/Governance.antt =====
-- governance.go of the store: the approvals of high-impact actions, and the audit log.
pub mod Decided
use sl_open_bark.Common.{
  ℕ, zero, String, Bool, true, false, not, ◌&&◌, ◌||◌, List, [], ◌∷◌, ◌++◌, Option, none, some, ltb,
  leb, if◌then◌else◌, ◌==◌, contains, nat_eq, string_eq,
}
use sl_open_bark.Common.Lists.{length, take, filter, find?, update, any, sort_by}
use sl_open_bark.Common.Result.{◌>>=◌, raise, pure}
use sl_open_bark.Store.Models.{
  RawMessage, empty, document, object, end_members, Approval, AuditEntry, AuditInput, Session,
}
use sl_open_bark.Store.Db.{
  Tables, Env, Query, not_found, statement, insert_uuid, insert_identity, select, modify,
}

-- `defaultJSON`: `{}` in place of no bytes.
pub default_json : RawMessage → RawMessage
default_json empty = document (object end_members)
default_json raw = raw

-- A column of type jsonb takes JSON documents only.
abbrev pub is_json : RawMessage → Bool
is_json (document j) = true
is_json raw = false

abbrev pub session_exists : String → List Session → Bool
session_exists id = any (λ s. s.id == id)

-- The foreign key of approvals.session_id; "" stands for NULL (`nullable`).
abbrev pub session_allowed : String → List Session → Bool
session_allowed id sessions = id == "" || session_exists id sessions

abbrev pub status_pending : String
status_pending = "pending"

abbrev pub status_approved : String
status_approved = "approved"

-- The check constraint of approvals.status.
abbrev pub statuses : List String
statuses = status_pending ∷ status_approved ∷ "denied" ∷ "cancelled" ∷ []

abbrev pub new_approval : String → String → RawMessage → Env → Approval
new_approval session_id tool args env = record {
  id = env.uuid env.next_uuid;
  session_id = session_id;
  tool = tool;
  args_redacted = default_json args;
  status = status_pending;
  decided_by = "";
  decided_at = none;
  created_at = env.now;
}

unfoldable pub create_approval : String → String → RawMessage → Query Approval
unfolding default_json
create_approval session_id tool args = insert_uuid "create approval" λ t env.
    if session_allowed session_id t.sessions && is_json (default_json args)
    then some (
      new_approval session_id tool args env,
      record t { approvals = t.approvals ++ new_approval session_id tool args env ∷ [] },
    )
    else none

-- A row that was found, or ErrNotFound for sql.ErrNoRows.
abbrev pub or_not_found : {A : Type 0} → Option A → Query A
or_not_found none = raise not_found
or_not_found (some a) = pure a

abbrev pub has_approval_id : String → Approval → Bool
has_approval_id id a = a.id == id

unfoldable pub get_approval : String → Query Approval
get_approval id = do
  row ← select "get approval" (λ t env. find? (has_approval_id id) t.approvals)
  or_not_found row

abbrev pub decide : String → String → ℕ → Approval → Approval
decide status decided_by now a = record a {
  status = status;
  decided_by = decided_by;
  decided_at = some now;
}

-- The update of the row, and the row as it is afterwards; the check constraint looks at updated
-- rows only.
abbrev pub decide_row :
    String → String → String → Tables → Env → Option Approval → Option (Option Approval × Tables)
decide_row id status decided_by t env none = some (none, t)
decide_row id status decided_by t env (some a) =
    if contains statuses status
    then some (
      some (decide status decided_by env.now a),
      record t {
        approvals = update (has_approval_id id) (decide status decided_by env.now) t.approvals;
      },
    )
    else none

unfoldable pub decide_approval : String → String → String → Query Approval
decide_approval id status decided_by = do
  row ←
      statement "decide approval"
        (λ t env. decide_row id status decided_by t env (find? (has_approval_id id) t.approvals))
  or_not_found row

-- `ORDER BY created_at DESC`, and `ASC`
abbrev pub newest_first : Approval → Approval → Bool
newest_first a b = leb b.created_at a.created_at

abbrev pub oldest_first : Approval → Approval → Bool
oldest_first a b = leb a.created_at b.created_at

-- NULL, "" here, equals no session id.
abbrev pub of_session : String → Approval → Bool
of_session id a = not (a.session_id == "") && a.session_id == id

unfoldable pub list_approvals_by_session : String → Query (List Approval)
list_approvals_by_session id =
    select "list approvals" λ t env. sort_by newest_first (filter (of_session id) t.approvals)

unfoldable pub list_pending_approvals : Query (List Approval)
list_pending_approvals =
    select "list approvals"
      λ t env. sort_by oldest_first (filter (λ a. a.status == status_pending) t.approvals)

abbrev pub new_entry : AuditInput → Env → AuditEntry
new_entry input env = record {
  id = env.next_identity;
  actor = input.actor;
  tool = input.tool;
  args_redacted = default_json input.args_redacted;
  result = input.result;
  latency_ms = input.latency_ms;
  created_at = env.now;
}

unfoldable pub write_audit : AuditInput → Query AuditEntry
unfolding default_json
write_audit input = insert_identity "write audit" λ t env.
    if is_json (default_json input.args_redacted)
    then some (new_entry input env, record t { audit = t.audit ++ new_entry input env ∷ [] })
    else none

abbrev pub latest_entry : AuditEntry → AuditEntry → Bool
latest_entry a b = leb b.id a.id

-- A limit of 0 stands for every limit that is not positive.
abbrev pub audit_limit : ℕ → ℕ
audit_limit zero = 100
audit_limit limit = limit

unfoldable pub list_audit : ℕ → Query (List AuditEntry)
list_audit limit =
    select "list audit" λ t env. take (audit_limit limit) (sort_by latest_entry t.audit)

abbrev pub audit_deleted : ℕ → Tables → Env → ℕ × Tables
audit_deleted before t env = (
  length (filter (λ e. ltb e.created_at before) t.audit),
  record t { audit = filter (λ e. not (ltb e.created_at before)) t.audit },
)

unfoldable pub age_out_audit : ℕ → Query ℕ
age_out_audit before = modify "age out audit" (audit_deleted before)
