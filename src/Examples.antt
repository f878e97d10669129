-- ===== src/Examples.antt =====
-- A small database, and the theorems applied to it.
pub mod Console
pub mod Downstream
pub mod Front
pub mod Gate
pub mod History
pub mod Outside
pub mod Records
pub mod Repository
pub mod Rules
pub mod Service
pub mod Upkeep
use sl_open_bark.Common.{ℕ, String, true, List, [], ◌∷◌, none, some}
use sl_open_bark.Store.Models.{Fact, ServerRow, Tool, Approval, RawMessage, document, null}
use sl_open_bark.Store.Db.{Tables, Env, Db}

abbrev pub preference : Fact
preference = record {
  id = "fact-1";
  scope_type = "user";
  scope_id = "u1";
  key = "units";
  value = "metric";
  tags = "style" ∷ [];
  source = "";
  created_at = 5;
  expires_at = none;
}

abbrev pub budget_note : Fact
budget_note = record {
  id = "fact-2";
  scope_type = "committee";
  scope_id = "finance";
  key = "budget";
  value = "900";
  tags = [];
  source = "";
  created_at = 7;
  expires_at = some 50;
}

abbrev pub finance_server : ServerRow
finance_server = record {
  id = "server-1";
  name = "finance-rules";
  owner = "finance";
  description = "";
  endpoint = "http://finance-rules";
  transport = "http";
  auth = "none";
  lifecycle = "approved";
  enabled = true;
  health = "unknown";
  created_at = 1;
  updated_at = 1;
}

abbrev pub pay : Tool
pay = record {
  id = "tool-1";
  server_id = "server-1";
  name = "pay";
  scope = "finance.write";
  impact = "high";
}

abbrev pub granted : Approval
granted = record {
  id = "approval-1";
  session_id = "session-1";
  tool = "pay";
  args_redacted = document null;
  status = "approved";
  decided_by = "treasurer";
  decided_at = some 9;
  created_at = 8;
}

abbrev pub tables : Tables
tables = record {
  users = [];
  roles = [];
  sessions = [];
  turns = [];
  summaries = [];
  facts = preference ∷ budget_note ∷ [];
  approvals = granted ∷ [];
  audit = [];
  servers = finance_server ∷ [];
  tools = pay ∷ [];
  grants = record { server_id = "server-1"; committee = "finance" } ∷ [];
}

abbrev pub env : Env
env = record { now = 100; uuid = λ n. "generated"; next_uuid = 0; next_identity = 1; faults = [] }

abbrev pub db : Db
db = record { tables = tables; env = env }
