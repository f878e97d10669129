-- ===== src/Store/Registry/Stands.antt =====
-- RegisterServer: the server that was registered is in the tables.
use sl_open_bark.Common.{
  String, Bool, List, [], ◌∷◌, Option, none, some, if◌then◌else◌, ◌==◌, ◌||◌, string_eq, ◌≡◌, refl,
  sym, ap, ◌∙◌, inl, inr, if_elim,
}
use mathlib.Core.Path.{subst}
use sl_open_bark.Common.Lists.{update, find?}
use sl_open_bark.Common.Members.{Elem, Elem-append_left}
use sl_open_bark.Common.Result.{ok, >>=_elim, ◌>>◌, raise}
use sl_open_bark.Store.Models.{Server, ServerInput, ServerRow}
use sl_open_bark.Store.Db.{Db, Env, Tables, Query, transaction, name_and_endpoint_required}
use sl_open_bark.Store.Registry.{
  put_server, register_server, register_rows, get_server_by_name, new_row, refresh, named,
}
use sl_open_bark.Store.Registry.Kept.{IsKept}
use sl_open_bark.Store.Registry.Resolve.{get_server_by_name-Held, get_server_by_name-tables}

-- A server of the name is in the tables.
abbrev pub Stands : String → Tables → Type 0
Stands name t = (s : ServerRow) × Elem s t.servers × (s.name ≡ name)

update-Stands :
    (name : String) (p : ServerRow → Bool) (f : ServerRow → ServerRow)
    → ((s : ServerRow) → (f s).name ≡ s.name)
    → (s : ServerRow) (rows : List ServerRow) → Elem s rows
    → s.name ≡ name
    → (u : ServerRow) × Elem u (update p f rows) × (u.name ≡ name)
update-Stands name p f keep s [] m e = absurd m
update-Stands name p f keep s (r ∷ rows) (inl here) e = (
  if p r then f r else r,
  inl refl,
  if_elim (λ x. x.name ≡ name) (p r) (f r) r
      (λ _. keep r ∙ ap (λ (x : ServerRow). x.name) (sym here) ∙ e)
      (λ _. ap (λ (x : ServerRow). x.name) (sym here) ∙ e),
)
update-Stands name p f keep s (r ∷ rows) (inr m) e =
    let (u, held, k) = update-Stands name p f keep s rows m e in (u, inr held, k)

put_server-Stands :
    (name : String) (input : ServerInput) (t : Tables) (env : Env) (found : Option ServerRow)
    → find? (named input.name) t.servers ≡ found
    → Stands name t
    → Stands name (put_server input t env found).1
put_server-Stands name input t env none _ (s, m, e) =
    (s, Elem-append_left s t.servers (new_row input env ∷ []) m, e)
put_server-Stands name input t env (some r) _ (s, m, e) =
    update-Stands name (named input.name) (refresh input env.now) (λ s. refl) s t.servers m e

pub Stands-IsKept : (name : String) → IsKept (Stands name)
Stands-IsKept name = record {
  put = put_server-Stands name;
  tools = λ t xs h. h;
  grants = λ t gs h. h;
}

pub register_server-Stands :
    (input : ServerInput) (db : Db) (s : Server)
    → (register_server input db).0 ≡ ok s
    → Stands input.name (register_server input db).1.tables
unfolding register_server
register_server-Stands input db s =
    let work : Query Server = transaction (register_rows input) >> get_server_by_name input.name in
    if_elim (λ (m : Query Server). (m db).0 ≡ ok s → Stands input.name (m db).1.tables)
      (input.name == "" || input.endpoint == "") (raise name_and_endpoint_required) work (λ _ h. cc)
      (λ _.
        >>=_elim (λ _. get_server_by_name input.name)
          (λ r. r.0 ≡ ok s → Stands input.name r.1.tables) (transaction (register_rows input)) db
          (λ e _ h. cc)
          (λ a _ h.
            let db₁ = (transaction (register_rows input) db).1 in
            let (held, same) = get_server_by_name-Held input.name db₁ s h in
            subst (Stands input.name) (sym (get_server_by_name-tables input.name db₁))
              (s.row, held.row_held, same)))
