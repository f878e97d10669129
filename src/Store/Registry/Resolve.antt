-- ===== src/Store/Registry/Resolve.antt =====
-- registry.go: what a binding that ResolveTool returns says of the tables.
use mathlib.Core.Path.{subst}
use sl_open_bark.Common.{
  String, List, [], ◌∷◌, Option, none, some, ◌==◌, string_eq, ◌≡◌, refl, ap, sym, ◌∙◌, arith,
  eq_of_==, map,
}
use sl_open_bark.Common.Lists.{filter, find?, sort_by}
use sl_open_bark.Common.Members.{Elem, filter-Elem, sort_by-Elem, find?-Elem, map-Elem}
use sl_open_bark.Common.Result.{ok, >>=-ok, >>=-keeps}
use sl_open_bark.Common.Text.{text_le}
use sl_open_bark.Store.Models.{Server, ServerRow, Tool, ToolBinding}
use sl_open_bark.Store.Db.{Db, Tables, Grant, select}
use sl_open_bark.Store.Db.Laws.{select-ok, select-tables}
use sl_open_bark.Store.Governance.{or_not_found}
use sl_open_bark.Store.Registry.{
  named, list_tools, list_server_committees, load_server, get_server_by_name, find_tool,
  resolve_tool,
}

-- A server as the tables hold it.
pub record Held (t : Tables) (s : Server) : Type 0 where
  pub row_held : Elem s.row t.servers
  pub tools_held : (r : Tool) → Elem r s.tools → Elem r t.tools × (r.server_id ≡ s.id)
  pub granted :
      (c : String)
      → Elem c s.committees
      → Elem (record { server_id = s.id; committee = c }) t.grants

pub record Bound (t : Tables) (server_name tool_name : String) (b : ToolBinding) : Type 0 where
  pub server_held : Held t b.server
  pub server_named : b.server.name ≡ server_name
  pub tool_held : Elem b.tool t.tools
  pub tool_owned : b.tool.server_id ≡ b.server.id
  pub tool_named : b.tool.name ≡ tool_name

or_not_found-ok :
    {A : Type 0} (o : Option A) (db : Db) (a : A) → (or_not_found o db).0 ≡ ok a → o ≡ some a
or_not_found-ok none db a h = cc
or_not_found-ok (some x) db a h = cc

or_not_found-db : {A : Type 0} (o : Option A) (db : Db) → (or_not_found o db).1 ≡ db
or_not_found-db none db = refl
or_not_found-db (some x) db = refl

abbrev rows_of_server : String → Tables → List Tool
rows_of_server id t =
    sort_by (λ a b. text_le a.name b.name) (filter (λ r. r.server_id == id) t.tools)

abbrev grants_of_server : String → Tables → List String
grants_of_server id t =
    sort_by text_le (map (λ (g : Grant). g.committee) (filter (λ g. g.server_id == id) t.grants))

-- The server that the rows of the tables make up.
abbrev pub loaded : Tables → ServerRow → Server
loaded t row = record {
  row = row;
  tools = rows_of_server row.id t;
  committees = grants_of_server row.id t;
}

pub loaded-Held : (t : Tables) (row : ServerRow) → Elem row t.servers → Held t (loaded t row)
loaded-Held t row held = record {
  row_held = held;
  tools_held = λ r m.
      let (k, own) =
        filter-Elem (λ (x : Tool). x.server_id == row.id) r t.tools (sort_by-Elem _ r _ m) in
      (k, eq_of_== r.server_id row.id own);
  granted = λ c m.
      let (g, k, same) = map-Elem (λ (g : Grant). g.committee) c _ (sort_by-Elem text_le c _ m) in
      let (k', own) = filter-Elem (λ (g : Grant). g.server_id == row.id) g t.grants k in
      subst (λ (x : Grant). Elem x t.grants)
        (λ i. record { server_id = eq_of_== g.server_id row.id own i; committee = sym same i }) k';
}

load_server-loaded :
    (row : ServerRow) (db : Db) (s : Server)
    → (load_server row db).0 ≡ ok s
    → s ≡ loaded db.tables row
unfolding load_server
load_server-loaded row db s h =
    let (tools, th, h₁) = >>=-ok _ (list_tools row.id) db s h in
    let db₁ = (list_tools row.id db).1 in
    let (committees, ch, h₂) = >>=-ok _ (list_server_committees row.id) db₁ s h₁ in
    let kept : db₁.tables ≡ db.tables =
      select-tables "list tools" (λ t env. rows_of_server row.id t) db in
    let same_tools : tools ≡ rows_of_server row.id db.tables =
      select-ok "list tools" (λ t env. rows_of_server row.id t) db tools th in
    let same_committees : committees ≡ grants_of_server row.id db.tables =
      select-ok "list server committees" (λ t env. grants_of_server row.id t) db₁ committees ch
      ∙ ap (grants_of_server row.id) kept in
    ground (arith, h₂)

pub get_server_by_name-Held :
    (name : String) (db : Db) (s : Server)
    → (get_server_by_name name db).0 ≡ ok s
    → Held db.tables s × (s.name ≡ name)
unfolding get_server_by_name
get_server_by_name-Held name db s h =
    let find_row = select "get server" (λ t env. find? (named name) t.servers) in
    let (found, fh, h₁) = >>=-ok _ find_row db s h in
    let (row, rh, h₂) = >>=-ok _ (or_not_found found) (find_row db).1 s h₁ in
    let (held, hit) = find?-Elem (named name) row db.servers (
      sym (select-ok "get server" (λ t env. find? (named name) t.servers) db found fh)
      ∙ or_not_found-ok found (find_row db).1 row rh) in
    let same : s ≡ loaded db.tables row =
      load_server-loaded row (or_not_found found (find_row db).1).1 s h₂
      ∙ ap (λ t. loaded t row)
          (ap (λ (d : Db). d.tables) (or_not_found-db found (find_row db).1)
            ∙ select-tables "get server" (λ t env. find? (named name) t.servers) db) in
    (
      subst (Held db.tables) (sym same) (loaded-Held db.tables row held),
      ap (λ (x : Server). x.name) same ∙ eq_of_== row.name name hit,
    )

find_tool-Elem :
    (server : Server) (name : String) (ts : List Tool) (b : ToolBinding)
    → find_tool server name ts ≡ some b
    → Elem b.tool ts × (b.tool.name ≡ name) × (b.server ≡ server)
find_tool-Elem server name [] b h = cc
find_tool-Elem server name (t ∷ ts) b h = ground (arith, find_tool-Elem server name ts b)

-- A binding names a server of the tables with its tool, its columns and its grants.
pub resolve_tool-Bound :
    (server_name tool_name : String) (db : Db) (b : ToolBinding)
    → (resolve_tool server_name tool_name db).0 ≡ ok b
    → Bound db.tables server_name tool_name b
unfolding resolve_tool
resolve_tool-Bound server_name tool_name db b h =
    let (server, sh, h₁) = >>=-ok _ (get_server_by_name server_name) db b h in
    let db₁ = (get_server_by_name server_name db).1 in
    let (is_tool, tool_named, same) =
      find_tool-Elem server tool_name server.tools b
        (or_not_found-ok (find_tool server tool_name server.tools) db₁ b h₁) in
    let (held, server_named) = get_server_by_name-Held server_name db server sh in
    let (tool_held, owned) = held.tools_held b.tool is_tool in
    record {
      server_held = subst (Held db.tables) (sym same) held;
      server_named = ap (λ (x : Server). x.name) same ∙ server_named;
      tool_held = tool_held;
      tool_owned = owned ∙ sym (ap (λ (x : Server). x.id) same);
      tool_named = tool_named;
    }

-- The tables are the ones that a call began with.
abbrev Same : Tables → Db → Type 0
Same t db = db.tables ≡ t

load_server-tables : (row : ServerRow) (db : Db) → (load_server row db).1.tables ≡ db.tables
unfolding load_server
load_server-tables row db =
    >>=-keeps (Same db.tables) (list_tools row.id) _ db
      (select-tables "list tools" (λ t env. rows_of_server row.id t) db)
      λ tools db₁ k.
        >>=-keeps (Same db.tables) (list_server_committees row.id) _ db₁
          (select-tables "list server committees" (λ t env. grants_of_server row.id t) db₁ ∙ k)
          (λ _ _ e. e)

pub get_server_by_name-tables :
    (name : String) (db : Db) → (get_server_by_name name db).1.tables ≡ db.tables
unfolding get_server_by_name
get_server_by_name-tables name db =
    >>=-keeps (Same db.tables) (select "get server" (λ t env. find? (named name) t.servers)) _ db
      (select-tables "get server" (λ t env. find? (named name) t.servers) db)
      λ found db₁ k.
        >>=-keeps (Same db.tables) (or_not_found found) _ db₁
          (ap (λ (d : Db). d.tables) (or_not_found-db found db₁) ∙ k)
          (λ row db₂ k'. load_server-tables row db₂ ∙ k')

-- Resolving changes no table.
pub resolve_tool-tables :
    (server_name tool_name : String) (db : Db)
    → (resolve_tool server_name tool_name db).1.tables ≡ db.tables
unfolding resolve_tool
resolve_tool-tables server_name tool_name db =
    >>=-keeps (Same db.tables) (get_server_by_name server_name) _ db
      (get_server_by_name-tables server_name db)
      λ server db₁ k.
        ap (λ (d : Db). d.tables) (or_not_found-db (find_tool server tool_name server.tools) db₁)
        ∙ k
