-- ===== src/Examples/History.antt =====
-- The store over time, the gateway behind it, and a sync of the registry.
use sl_open_bark.Common.{
  String, true, false, apart, ◌≢◌, inr, List, [], ◌∷◌, none, some, ◌≡◌, refl, ◌↔◌, inl, string_eq,
  nat_eq,
}
use sl_open_bark.Common.Lists.{sort_by}
use sl_open_bark.Common.Members.{Elem}
use sl_open_bark.Common.Result.{Result, ok}
use sl_open_bark.Store.Models.{
  Approval, Session, Turn, VisibleTool, ToolBinding, RawMessage, document, null, object,
  end_members,
}
use sl_open_bark.Store.Db.{Db}
use sl_open_bark.Store.Governance.{create_approval, decide_approval}
use sl_open_bark.Store.History.{Operation, request, decision, history}
use sl_open_bark.Store.History.Warranted.{Known, history-Known}
use sl_open_bark.Store.Registry.{list_visible_tools, join_servers}
use sl_open_bark.Store.Sessions.{list_turns, turns_of}
use sl_open_bark.Store.Sessions.Recent.{Recent, list_turns-Recent}
use sl_open_bark.Infra.Tree.{Node, file, folder, end_entries, entry}
use sl_open_bark.Gateway.Manifest.{ManifestFile}
use sl_open_bark.Gateway.Policy.{
  Identity, CallRequest, World, Gateway, repository, call, list_tools, authorized,
}
use sl_open_bark.Gateway.Policy.Decided.{Released, call-Released}
use sl_open_bark.Gateway.Policy.Listed.{Callable, list_tools-Callable}
use sl_open_bark.Gateway.Sync.{sync_registry}
use sl_open_bark.Gateway.Sync.Synced.{Synced, sync_registry-Synced}
use sl_open_bark.Gateway.Policy.Admitted.{call-proxied}
use sl_open_bark.Store.Registry.{resolve_tool, get_server_by_name}
use sl_open_bark.Examples.Gate.{float}
use sl_open_bark.Examples.{db, tables, env, pay, finance_server, granted}

abbrev session : Session
session = record {
  id = "session-1";
  user_id = "";
  channel = "C1";
  thread_ts = "1.0";
  recipe = "";
  status = "active";
  created_at = 1;
  updated_at = 1;
}

abbrev first : Turn
first = record {
  id = 3;
  session_id = "session-1";
  role = "user";
  content = "pay ana";
  tokens = 2;
  created_at = 4;
}

abbrev second : Turn
second = record first { id = 5; role = "assistant"; content = "asked" }

abbrev third : Turn
third = record first { id = 8; content = "now" }

abbrev fresh : Db
fresh = record {
  tables = record tables {
    approvals = [];
    sessions = session ∷ [];
    turns = third ∷ first ∷ second ∷ [];
  };
  env = env;
}

-- A payment is asked for, and the treasurer approves it.
abbrev ops : List Operation
ops = request "session-1" "pay" (document null) ∷ decision "generated" "approved" "treasurer" ∷ []

abbrev approved : Approval
approved = record {
  id = "generated";
  session_id = "session-1";
  tool = "pay";
  args_redacted = document null;
  status = "approved";
  decided_by = "treasurer";
  decided_at = some 100;
  created_at = 100;
}

in_table : Elem approved (history ops fresh).tables.approvals
unfolding history create_approval decide_approval string_eq
in_table = inl refl

history-Known_example : Known ops fresh.tables approved
history-Known_example = history-Known ops fresh approved in_table

abbrev same : RawMessage → RawMessage
same args = args

abbrev world : World
world = record {
  float = float;
  now = 6;
  later = 7;
  latency_ms = 2;
  respond = λ server tool args. ok (document null);
}

abbrev treasurer : Identity
treasurer = record { subject = "ana"; committees = "finance" ∷ []; is_agent = false }

abbrev payment : CallRequest
payment = record {
  identity = treasurer;
  session_id = "session-1";
  server_name = "finance-rules";
  tool_name = "pay";
  args = document null;
}

abbrev gateway : Gateway repository
gateway = record { store = history ops fresh; limiter = none; proxied = [] }

call-Released_example :
    Released same world payment ops gateway (call repository same world payment gateway).1
call-Released_example = call-Released same world payment ops fresh gateway refl refl

abbrev shown : VisibleTool
shown = record {
  server_name = "finance-rules";
  server_id = "server-1";
  tool_name = "pay";
  scope = "finance.write";
  impact = "high";
}

abbrev plain : Gateway repository
plain = record { store = db; limiter = none; proxied = [] }

tools_shown : (list_tools repository same treasurer plain).0 ≡ ok (shown ∷ [])
unfolding list_tools list_visible_tools join_servers sort_by string_eq
tools_shown = refl

list_tools-Callable_example : Elem shown (shown ∷ []) ↔ Callable tables treasurer shown
list_tools-Callable_example =
    list_tools-Callable same treasurer plain (shown ∷ []) shown tools_shown

last_two : (list_turns "session-1" 2 fresh).0 ≡ ok (second ∷ third ∷ [])
unfolding list_turns sort_by string_eq
last_two = refl

list_turns-Recent_example : Recent 2 (turns_of "session-1" fresh.tables.turns) (second ∷ third ∷ [])
list_turns-Recent_example = list_turns-Recent "session-1" 2 fresh (second ∷ third ∷ []) last_two

-- Every manifest is that of the mail server, under the name that its text gives.
abbrev parse : String → Result String ManifestFile
parse raw = ok (record {
  name = raw;
  owner = "tech";
  description = "";
  endpoint = "http://mail";
  transport = "";
  auth = "";
  tools = record { name = "gmail_send"; scope = "gmail.send"; impact = "high" } ∷ [];
  allowed_committees = "tech" ∷ [];
  lifecycle = "approved";
})

abbrev root : Node
root = folder "." (
    entry
      (folder "mcp-servers" (
        entry (folder "mail" (entry (file "manifest.yaml" 5 (some "mail")) end_entries))
          end_entries))
      end_entries)

sync_registry-Synced_example :
    Synced parse same root plain (sync_registry repository same parse root plain)
sync_registry-Synced_example = sync_registry-Synced parse same root plain

-- What was approved for one payment lets another with other arguments through.
abbrev other_payment : CallRequest
other_payment = record payment { args = document (object end_members) }

abbrev binding : ToolBinding
binding = record {
  server = record { row = finance_server; tools = pay ∷ []; committees = "finance" ∷ [] };
  tool = pay;
}

found : (resolve_tool "finance-rules" "pay" db).0 ≡ ok binding
unfolding resolve_tool get_server_by_name string_eq sort_by
found = refl

may_call : authorized binding.server treasurer ≡ true
unfolding authorized string_eq
may_call = refl

session_named : ◌≢◌ {A = String} "session-1" ""
unfolding string_eq
session_named e = apart "session-1" "" refl e

call-proxied_example :
    (call repository same world other_payment plain).1.proxied
    ≡ record { server = binding.server; tool = pay; args = other_payment.args } ∷ []
call-proxied_example =
    call-proxied same world other_payment plain binding refl refl found may_call (
      inr (record {
        approval = granted;
        held = inl refl;
        approved = refl;
        in_session = refl;
        of_tool = refl;
        with_session = session_named;
      }))
