-- ===== src/Store/Registry.antt =====
-- registry.go of the store: the registered MCP servers, their tools and committee grants.
pub mod Kept
pub mod Visible
pub mod Stands
pub mod Quiet
pub mod Resolve
pub mod Registered
use sl_open_bark.Common.{
  ℕ, String, Bool, true, false, not, ◌&&◌, ◌||◌, List, [], ◌∷◌, ◌++◌, Option, none, some,
  if◌then◌else◌, ◌==◌, contains, nat_eq, string_eq, map,
}
use sl_open_bark.Common.Lists.{filter, find?, update, any, sort_by}
use sl_open_bark.Common.Result.{◌>>=◌, ◌>>◌, raise, pure}
use sl_open_bark.Common.Text.{text_le}
use sl_open_bark.Store.Models.{
  ToolInput, ServerInput, Tool, ServerRow, Server, VisibleTool, ToolBinding, lifecycle_proposed,
  lifecycle_approved, lifecycle_deprecated, lifecycle_disabled,
}
use sl_open_bark.Store.Db.{
  Grant, Tables, Env, Query, name_and_endpoint_required, statement, insert_uuid, select, modify,
  transaction,
}
use sl_open_bark.Store.Governance.{or_not_found}
use sl_open_bark.Store.Sessions.{affected}

-- `if x == "" { x = default }`
abbrev pub or_default : String → String → String
or_default default x = if x == "" then default else x

abbrev pub named : String → ServerRow → Bool
named name s = s.name == name

-- The row that a first registration inserts, with the columns' defaults.
abbrev pub new_row : ServerInput → Env → ServerRow
new_row input env = record {
  id = env.uuid env.next_uuid;
  name = input.name;
  owner = input.owner;
  description = input.description;
  endpoint = input.endpoint;
  transport = or_default "streamable-http" input.transport;
  auth = or_default "bearer" input.auth;
  lifecycle = lifecycle_proposed;
  enabled = true;
  health = "unknown";
  created_at = env.now;
  updated_at = env.now;
}

-- What `ON CONFLICT (name) DO UPDATE` sets.
abbrev pub refresh : ServerInput → ℕ → ServerRow → ServerRow
refresh input now s = record s {
  owner = input.owner;
  description = input.description;
  endpoint = input.endpoint;
  transport = or_default "streamable-http" input.transport;
  auth = or_default "bearer" input.auth;
  updated_at = now;
}

abbrev pub put_server : ServerInput → Tables → Env → Option ServerRow → String × Tables
put_server input t env none =
    (env.uuid env.next_uuid, record t { servers = t.servers ++ new_row input env ∷ [] })
put_server input t env (some s) =
    (s.id, record t { servers = update (named input.name) (refresh input env.now) t.servers })

pub upsert_server : ServerInput → Query String
upsert_server input =
    insert_uuid "register server: upsert"
      λ t env. some (put_server input t env (find? (named input.name) t.servers))

abbrev pub begin : Query Unit
begin = modify "register server: begin" λ t env. (tt, t)

abbrev pub commit : Query Unit
commit = modify "register server: commit" λ t env. (tt, t)

pub clear_tools : String → Query Unit
clear_tools server_id =
    modify "register server: clear tools"
      λ t env. (tt, record t { tools = filter (λ r. not (r.server_id == server_id)) t.tools })

-- The check constraint of mcp_tools.impact.
abbrev pub impacts : List String
impacts = "read" ∷ "write" ∷ "high" ∷ []

abbrev pub is_tool : String → String → Tool → Bool
is_tool server_id name r = r.server_id == server_id && r.name == name

abbrev pub new_tool : String → ToolInput → Env → Tool
new_tool server_id tool env = record {
  id = env.uuid env.next_uuid;
  server_id = server_id;
  name = tool.name;
  scope = tool.scope;
  impact = tool.impact;
}

-- `UNIQUE (server_id, name)`, and the check of the impact
insert_tool : String → ToolInput → Query Unit
insert_tool server_id tool = insert_uuid "register server: insert tool" λ t env.
    if contains impacts tool.impact && not (any (is_tool server_id tool.name) t.tools)
    then some (tt, record t { tools = t.tools ++ new_tool server_id tool env ∷ [] })
    else none

pub insert_tools : String → List ToolInput → Query Unit
unfolding insert_tool
insert_tools server_id [] = pure tt
insert_tools server_id (tool ∷ rest) = do insert_tool server_id tool; insert_tools server_id rest

pub clear_committees : String → Query Unit
clear_committees server_id =
    modify "register server: clear committees"
      λ t env. (tt, record t { grants = filter (λ g. not (g.server_id == server_id)) t.grants })

abbrev pub is_grant : String → String → Grant → Bool
is_grant server_id committee g = g.server_id == server_id && g.committee == committee

-- `ON CONFLICT DO NOTHING`
abbrev pub put_grant : String → String → List Grant → List Grant
put_grant server_id committee grants =
    if any (is_grant server_id committee) grants
    then grants
    else grants ++ record { server_id = server_id; committee = committee } ∷ []

pub grant_committees : String → List String → Query Unit
grant_committees server_id [] = pure tt
grant_committees server_id (c ∷ rest) = do
  modify "register server: grant committee"
      (λ t env. (tt, record t { grants = put_grant server_id c t.grants }))
  grant_committees server_id rest

unfoldable pub list_tools : String → Query (List Tool)
list_tools server_id =
    select "list tools" λ t env.
      sort_by (λ a b. text_le a.name b.name) (filter (λ r. r.server_id == server_id) t.tools)

pub list_server_committees : String → Query (List String)
list_server_committees server_id = select "list server committees" λ t env.
    sort_by text_le (map (λ g. g.committee) (filter (λ g. g.server_id == server_id) t.grants))

-- `listTools` and `listServerCommittees` fill in the rest of a server.
pub load_server : ServerRow → Query Server
unfolding list_tools list_server_committees
load_server row = do
  tools ← list_tools row.id
  committees ← list_server_committees row.id
  pure (record { row = row; tools = tools; committees = committees })

unfoldable pub get_server_by_name : String → Query Server
unfolding load_server
get_server_by_name name = do
  found ← select "get server" (λ t env. find? (named name) t.servers)
  row ← or_not_found found
  load_server row

load_servers : List ServerRow → Query (List Server)
unfolding load_server
load_servers [] = pure []
load_servers (row ∷ rows) = do
  server ← load_server row
  servers ← load_servers rows
  pure (server ∷ servers)

unfoldable pub list_servers : Query (List Server)
unfolding load_servers
list_servers = do
  rows ← select "list servers" (λ t env. sort_by (λ a b. text_le a.name b.name) t.servers)
  load_servers rows

-- The transaction: the server's row, its tools and its grants, replaced together.
pub register_rows : ServerInput → Query Unit
unfolding upsert_server clear_tools insert_tools clear_committees grant_committees
register_rows input = do
  begin
  server_id ← upsert_server input
  clear_tools server_id
  insert_tools server_id input.tools
  clear_committees server_id
  grant_committees server_id input.committees
  commit

pub register_server : ServerInput → Query Server
register_server input =
    if input.name == "" || input.endpoint == ""
    then raise name_and_endpoint_required
    else transaction (register_rows input) >> get_server_by_name input.name

-- The check constraint of mcp_servers.lifecycle looks at updated rows only.
abbrev pub lifecycles : List String
lifecycles =
    lifecycle_proposed ∷ lifecycle_approved ∷ lifecycle_deprecated ∷ lifecycle_disabled ∷ []

abbrev pub update_server : String → (ServerRow → ServerRow) → Bool → Tables → Option (Bool × Tables)
update_server name f allowed t =
    if any (named name) t.servers
    then if allowed
      then some (true, record t { servers = update (named name) f t.servers })
      else none
    else some (false, t)

unfoldable pub set_server_lifecycle : String → String → Query Unit
set_server_lifecycle name lifecycle = do
  found ← statement "set lifecycle" (λ t env.
      update_server name (λ s. record s { lifecycle = lifecycle; updated_at = env.now })
        (contains lifecycles lifecycle) t)
  affected found

unfoldable pub set_server_enabled : String → Bool → Query Unit
set_server_enabled name enabled = do
  found ← statement "set enabled" (λ t env.
      update_server name (λ s. record s { enabled = enabled; updated_at = env.now }) true t)
  affected found

abbrev pub find_tool : Server → String → List Tool → Option ToolBinding
find_tool server name [] = none
find_tool server name (t ∷ ts) =
    let rest = find_tool server name ts in
    if t.name == name then some (record { server = server; tool = t }) else rest

unfoldable pub resolve_tool : String → String → Query ToolBinding
resolve_tool server_name tool_name = do
  server ← get_server_by_name server_name
  or_not_found (find_tool server tool_name server.tools)

-- `WHERE s.lifecycle = 'approved' AND s.enabled AND sc.committee IN (...)`, with the join of
-- server_committees.
abbrev pub is_visible : List String → List Grant → ServerRow → Bool
is_visible committees grants s =
    s.lifecycle == lifecycle_approved
    && s.enabled
    && any (λ g. g.server_id == s.id && contains committees g.committee) grants

abbrev pub visible_of : ServerRow → Tool → VisibleTool
visible_of s t = record {
  server_name = s.name;
  server_id = s.id;
  tool_name = t.name;
  scope = t.scope;
  impact = t.impact;
}

-- `JOIN mcp_servers s ON s.id = t.server_id`. A tool's name is unique on its server, so the join
-- with the grants under `DISTINCT` keeps one row for each tool with a grant.
abbrev pub join_tools : ServerRow → List Tool → List VisibleTool
join_tools s [] = []
join_tools s (t ∷ ts) =
    let rest = join_tools s ts in if s.id == t.server_id then visible_of s t ∷ rest else rest

unfoldable pub join_servers :
    List String → List Grant → List ServerRow → List Tool → List VisibleTool
join_servers committees grants [] tools = []
join_servers committees grants (s ∷ ss) tools =
    let rest = join_servers committees grants ss tools in
    if is_visible committees grants s then join_tools s tools ++ rest else rest

-- `ORDER BY s.name, t.name`
abbrev pub by_names : VisibleTool → VisibleTool → Bool
by_names a b =
    if a.server_name == b.server_name
    then text_le a.tool_name b.tool_name
    else text_le a.server_name b.server_name

unfoldable pub list_visible_tools : List String → Query (List VisibleTool)
list_visible_tools [] = pure []
list_visible_tools committees =
    select "list visible tools"
      λ t env. sort_by by_names (join_servers committees t.grants t.servers t.tools)
