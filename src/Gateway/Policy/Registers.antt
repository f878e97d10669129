-- ===== src/Gateway/Policy/Registers.antt =====
-- gateway.go over the repository: what `Register` leaves of the tables.
use sl_open_bark.Common.{suc, List, [], ◌∷◌, ◌++◌, none, some, string_eq, ◌≡◌, refl, sym, if_elim}
use mathlib.Core.Path.{subst}
use sl_open_bark.Common.Result.{Result, ok, err, >>=-keeps, >>=_elim, >>=-ok}
use sl_open_bark.Store.Models.{RawMessage, AuditEntry, AuditInput, Server, ServerInput}
use sl_open_bark.Store.Db.{Db, Tables, StoreError}
use sl_open_bark.Store.Db.Laws.{run_statement-tables, subst-some}
use sl_open_bark.Store.Governance.{write_audit, is_json, default_json, new_entry}
use sl_open_bark.Store.Registry.{register_server}
use sl_open_bark.Store.Registry.Kept.{IsKept, register_server-keeps}
use sl_open_bark.Store.Registry.Stands.{Stands, Stands-IsKept, register_server-Stands}
use sl_open_bark.Gateway.Policy.{
  Gateway, repository, wrap, of_store, audit_written, audit_registration, registration, register,
}
use sl_open_bark.Gateway.Policy.Gate.{of_store-ok}

-- A property of the tables that the statements of a registration keep, and a new audit row too.
module _ (redact : RawMessage → RawMessage) (P : Tables → Type 0) (kept : IsKept P)
    (audited : (t : Tables) (rows : List AuditEntry) → P t → P (record t { audit = rows })) where
  write_audit-keeps :
      (input : AuditInput) (db : Db) → P db.tables → P (write_audit input db).1.tables
  unfolding write_audit
  write_audit-keeps input db h =
      let u : Tables = record db.tables {
        audit = db.tables.audit ++ new_entry input db.env ∷ [];
      } in
      run_statement-tables "write audit" _ P
        (λ env. record env { next_identity = suc env.next_identity }) db.faults db h
        (λ a t.
          if_elim (λ o. o ≡ some (a, t) → P t) (is_json (default_json input.args_redacted))
            (some (new_entry input db.env, u)) none
            (λ _ e. subst-some P (new_entry input db.env, u) a t e (audited db.tables _ h))
            (λ _ e. cc))

  Q : Gateway repository → Type 0
  Q g = P g.store.tables

  wrap-keeps :
      (g : Gateway repository) (r : Result StoreError Server × Db)
      → P r.1.tables
      → Q (wrap repository redact g r).1
  unfolding Q
  wrap-keeps g (ok a, db) h = h
  wrap-keeps g (err e, db) h = h

  audit_written-keeps :
      (g : Gateway repository) (r : Result StoreError AuditEntry × Db)
      → P r.1.tables
      → Q (audit_written repository redact g r).1
  unfolding Q
  audit_written-keeps g (ok a, db) h = h
  audit_written-keeps g (err e, db) h = h

  -- Such a property holds after a registration, whichever statements fail.
  pub register-keeps :
      (input : ServerInput) (g : Gateway repository)
      → P g.store.tables
      → P (register repository redact input g).1.store.tables
  unfolding register Q
  register-keeps input g h =
      >>=-keeps Q (of_store repository redact (register_server input)) _ g
        (wrap-keeps g (register_server input g.store)
          (register_server-keeps P kept input g.store h))
        λ server g₁ h₁.
          >>=-keeps Q (audit_registration repository redact input) _ g₁
            (audit_written-keeps g₁ (write_audit (registration repository redact input) g₁.store)
              (write_audit-keeps (registration repository redact input) g₁.store h₁))
            (λ _ g₂ h₂. h₂)

module _ (redact : RawMessage → RawMessage) where
  wrap-store :
      (g : Gateway repository) (r : Result StoreError Server × Db)
      → (wrap repository redact g r).1.store ≡ r.1
  wrap-store g (ok a, db) = refl
  wrap-store g (err e, db) = refl

  -- A registration that succeeds leaves a server of its name in the tables.
  pub register-Stands :
      (input : ServerInput) (g : Gateway repository) (s : Server)
      → (register repository redact input g).0 ≡ ok s
      → Stands input.name (register repository redact input g).1.store.tables
  unfolding register Q
  register-Stands input g s h =
      let P : Tables → Type 0 = Stands input.name in
      let audited : (t : Tables) (rows : List AuditEntry) → P t → P (record t { audit = rows }) =
        λ t rows k. k in
      let kept = Stands-IsKept input.name in
      let first = of_store repository redact (register_server input) in
      let (server, fine, _) = >>=-ok _ first g s h in
      let stands : P (first g).1.store.tables =
        subst (λ (d : Db). P d.tables) (sym (wrap-store g (register_server input g.store)))
          (register_server-Stands input g.store server
            (of_store-ok repository redact (register_server input) g server fine)) in
      >>=_elim _ (λ r. P r.1.store.tables) first g (λ _ _. stands)
        (λ _ _.
          >>=-keeps (Q redact P kept audited) (audit_registration repository redact input) _
            (first g).1
            (audit_written-keeps redact P kept audited (first g).1
              (write_audit (registration repository redact input) (first g).1.store)
              (write_audit-keeps redact P kept audited (registration repository redact input)
                (first g).1.store stands))
            (λ _ _ k. k))
