-- ===== src/Store/Registry/Quiet.antt =====
-- registry.go: where no statement fails, resolving a tool leaves the database as it is.
use mathlib.Core.Path.{subst}
use sl_open_bark.Common.{String, [], Option, none, some, string_eq, ◌≡◌, refl, sym, ◌∙◌}
use sl_open_bark.Common.Lists.{find?}
use sl_open_bark.Common.Result.{>>=-keeps}
use sl_open_bark.Store.Models.{ServerRow}
use sl_open_bark.Store.Db.{Db, Env, Tables, select}
use sl_open_bark.Store.Governance.{or_not_found}
use sl_open_bark.Store.Registry.{
  named, list_tools, list_server_committees, load_server, get_server_by_name, find_tool,
  resolve_tool,
}

abbrev pub Quiet : Db → Type 0
Quiet db = db.env.faults ≡ []

pub select-db :
    {A : Type 0} (what : String) (read : Tables → Env → A) (db : Db)
    → Quiet db
    → (select what read db).1 ≡ db
select-db what read db h = rw h refl

or_not_found-db : {A : Type 0} (o : Option A) (db : Db) → (or_not_found o db).1 ≡ db
or_not_found-db none db = refl
or_not_found-db (some x) db = refl

module _ (db : Db) (quiet : Quiet db) where
  abbrev Still : Db → Type 0
  Still d = d ≡ db

  still :
      {A : Type 0} (what : String) (read : Tables → Env → A) (d : Db)
      → Still d
      → Still (select what read d).1
  still what read d k = select-db what read d (subst Quiet (sym k) quiet) ∙ k

  load_server-Still : (row : ServerRow) (d : Db) → Still d → Still (load_server row d).1
  unfolding load_server list_tools list_server_committees
  load_server-Still row d k =
      >>=-keeps Still (list_tools row.id) _ d (still "list tools" _ d k) λ tools d₁ k₁.
        >>=-keeps Still (list_server_committees row.id) _ d₁
          (still "list server committees" _ d₁ k₁) (λ _ _ e. e)

  get_server_by_name-Still :
      (name : String) (d : Db) → Still d → Still (get_server_by_name name d).1
  unfolding get_server_by_name
  get_server_by_name-Still name d k =
      >>=-keeps Still (select "get server" (λ t env. find? (named name) t.servers)) _ d
        (still "get server" (λ t env. find? (named name) t.servers) d k)
        λ found d₁ k₁.
          >>=-keeps Still (or_not_found found) _ d₁ (or_not_found-db found d₁ ∙ k₁)
            (λ row d₂ k₂. load_server-Still row d₂ k₂)

  pub resolve_tool-db :
      (server_name tool_name : String) → (resolve_tool server_name tool_name db).1 ≡ db
  unfolding resolve_tool
  resolve_tool-db server_name tool_name =
      >>=-keeps Still (get_server_by_name server_name) _ db
        (get_server_by_name-Still server_name db refl)
        λ server d₁ k₁. or_not_found-db (find_tool server tool_name server.tools) d₁ ∙ k₁
