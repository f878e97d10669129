-- ===== src/Store/Registry/Kept.antt =====
-- RegisterServer: a property of the tables that its statements keep holds after it, whether it
-- succeeds or fails at any of them.
use sl_open_bark.Common.{
  suc, String, ◌||◌, ◌&&◌, not, List, [], ◌∷◌, ◌++◌, Option, none, some, ◌==◌, string_eq, contains,
  ◌≡◌, refl, arith, if_elim, sym,
}
use mathlib.Core.Path.{subst}
use sl_open_bark.Common.Lists.{find?, any}
use sl_open_bark.Common.Result.{Result, ok, err, raise, ◌>>◌, >>=-keeps}
use sl_open_bark.Store.Models.{ServerInput, Server, ServerRow, Tool, ToolInput}
use sl_open_bark.Store.Db.{
  modify, Db, Env, Tables, Grant, Query, StoreError, transaction, roll_back,
  name_and_endpoint_required,
}
use sl_open_bark.Store.Db.Laws.{run_statement-tables, subst-some, modify-tables}
use sl_open_bark.Store.Registry.{
  impacts, is_tool, named, put_server, upsert_server, begin, clear_tools, insert_tool, insert_tools,
  clear_committees, grant_committees, register_rows, register_server, get_server_by_name, new_tool,
  put_grant,
}
use sl_open_bark.Store.Registry.Resolve.{get_server_by_name-tables}

-- What the changes of a registration keep.
pub record IsKept (P : Tables → Type 0) : Type 0 where
  pub put :
      (input : ServerInput) (t : Tables) (env : Env) (found : Option ServerRow)
      → find? (named input.name) t.servers ≡ found
      → P t
      → P (put_server input t env found).1
  pub tools : (t : Tables) (xs : List Tool) → P t → P (record t { tools = xs })
  pub grants : (t : Tables) (gs : List Grant) → P t → P (record t { grants = gs })

roll_back-keeps :
    {A : Type 0} (P : Tables → Type 0) (t : Tables) (out : Result StoreError A × Db)
    → P t
    → P out.1.tables
    → P (roll_back t out).1.tables
roll_back-keeps P t (ok a, db) before after = after
roll_back-keeps P t (err e, db) before after = before

module _ (P : Tables → Type 0) (kept : IsKept P) where
  upsert_server-keeps :
      (input : ServerInput) (db : Db) → P db.tables → P (upsert_server input db).1.tables
  unfolding upsert_server
  upsert_server-keeps input db h =
      run_statement-tables "register server: upsert"
        (λ t env. some (put_server input t env (find? (named input.name) t.servers))) P
        (λ env. record env { next_uuid = suc env.next_uuid }) db.faults db h
        (λ a t e.
          let found = find? (named input.name) db.servers in
          subst-some P (put_server input db.tables db.env found) a t e
            (kept.put input db.tables db.env found refl h))

  insert_tool-keeps :
      (id : String) (tool : ToolInput) (db : Db) → P db.tables → P (insert_tool id tool db).1.tables
  unfolding insert_tool
  insert_tool-keeps id tool db h =
      run_statement-tables "register server: insert tool" _ P
        (λ env. record env { next_uuid = suc env.next_uuid }) db.faults db h
        (λ a t.
          if_elim (λ o. o ≡ some (a, t) → P t)
            (contains impacts tool.impact && not (any (is_tool id tool.name) db.tools))
            (some (tt, record db.tables { tools = db.tools ++ new_tool id tool db.env ∷ [] })) none
            (λ _ e.
              subst-some P
                (tt, record db.tables { tools = db.tools ++ new_tool id tool db.env ∷ [] }) a t e
                (kept.tools db.tables _ h))
            (λ _ e. absurd (ground arith)))

  insert_tools-keeps :
      (id : String) (tools : List ToolInput) (db : Db)
      → P db.tables
      → P (insert_tools id tools db).1.tables
  unfolding insert_tools
  insert_tools-keeps id [] db h = h
  insert_tools-keeps id (tool ∷ rest) db h =
      >>=-keeps (λ d. P d.tables) (insert_tool id tool) (λ _. insert_tools id rest) db
        (insert_tool-keeps id tool db h) (λ _ d k. insert_tools-keeps id rest d k)

  grant_committees-keeps :
      (id : String) (cs : List String) (db : Db)
      → P db.tables
      → P (grant_committees id cs db).1.tables
  unfolding grant_committees
  grant_committees-keeps id [] db h = h
  grant_committees-keeps id (c ∷ rest) db h =
      let grant : Query Unit =
        modify "register server: grant committee"
          (λ t env. (tt, record t { grants = put_grant id c t.grants })) in
      >>=-keeps (λ d. P d.tables) grant (λ _. grant_committees id rest) db
        (modify-tables "register server: grant committee"
          (λ t env. (tt, record t { grants = put_grant id c t.grants })) P db h
          (kept.grants db.tables _ h))
        (λ _ d k. grant_committees-keeps id rest d k)

  clear_tools-keeps : (id : String) (db : Db) → P db.tables → P (clear_tools id db).1.tables
  unfolding clear_tools
  clear_tools-keeps id db h =
      modify-tables "register server: clear tools" _ P db h (kept.tools db.tables _ h)

  clear_committees-keeps :
      (id : String) (db : Db) → P db.tables → P (clear_committees id db).1.tables
  unfolding clear_committees
  clear_committees-keeps id db h =
      modify-tables "register server: clear committees" _ P db h (kept.grants db.tables _ h)

  register_rows-keeps :
      (input : ServerInput) (db : Db) → P db.tables → P (register_rows input db).1.tables
  unfolding register_rows
  register_rows-keeps input db h =
      let Q : Db → Type 0 = λ d. P d.tables in
      >>=-keeps Q begin _ db (modify-tables "register server: begin" (λ t env. (tt, t)) P db h h)
        λ _ d₁ h₁.
          >>=-keeps Q (upsert_server input) _ d₁ (upsert_server-keeps input d₁ h₁) λ id d₂ h₂.
            >>=-keeps Q (clear_tools id) _ d₂ (clear_tools-keeps id d₂ h₂) λ _ d₃ h₃.
              >>=-keeps Q (insert_tools id input.tools) _ d₃
                (insert_tools-keeps id input.tools d₃ h₃)
                λ _ d₄ h₄.
                  >>=-keeps Q (clear_committees id) _ d₄ (clear_committees-keeps id d₄ h₄)
                    λ _ d₅ h₅.
                      >>=-keeps Q (grant_committees id input.committees) _ d₅
                        (grant_committees-keeps id input.committees d₅ h₅)
                        λ _ d₆ h₆.
                          modify-tables "register server: commit" (λ t env. (tt, t)) P d₆ h₆ h₆

  pub register_server-keeps :
      (input : ServerInput) (db : Db) → P db.tables → P (register_server input db).1.tables
  unfolding register_server
  register_server-keeps input db h =
      let Q : Db → Type 0 = λ d. P d.tables in
      let work : Query Server =
        transaction (register_rows input) >> get_server_by_name input.name in
      if_elim (λ (m : Query Server). Q (m db).1) (input.name == "" || input.endpoint == "")
        (raise name_and_endpoint_required) work (λ _. h)
        (λ _.
          >>=-keeps Q (transaction (register_rows input)) (λ _. get_server_by_name input.name) db
            (roll_back-keeps P db.tables (register_rows input db) h
              (register_rows-keeps input db h))
            (λ _ d k. subst P (sym (get_server_by_name-tables input.name d)) k))
