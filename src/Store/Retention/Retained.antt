-- ===== src/Store/Retention/Retained.antt =====
-- The retention job: which facts and audit rows are left.
use sl_open_bark.Common.{
  ℕ, String, true, not, ◌≤◌, ◌<◌, List, Option, none, some, ◌≡◌, ◌↔◌, ◌⊎◌, inl, inr, refl, ap, sym,
  ◌∙◌, if_elim, ◌==◌, string_eq, ltb, arith,
}
use mathlib.Core.Path.{subst}
use sl_open_bark.Common.Int.{ℤ, pos}
use sl_open_bark.Common.Lists.{filter}
use sl_open_bark.Common.Members.{Elem, filter-Elem, Elem-filter}
use sl_open_bark.Common.Result.{Result, ok, err, raise, >>=_elim}
use sl_open_bark.Store.Models.{Fact, AuditEntry}
use sl_open_bark.Store.Db.{Tables, Env, Db, StoreError, modify}
use sl_open_bark.Store.Db.Laws.{modify-ok, modify-err}
use sl_open_bark.Store.Facts.{delete_expired_facts, expired_by, facts_deleted}
use sl_open_bark.Store.Governance.{age_out_audit, audit_deleted}
use sl_open_bark.Store.Retention.{
  RetentionError, no_dsn, open_failed, env_int, opened, main, expire_failed, age_out_failed,
  Summary, wrapped, failing, sweep,
}

abbrev pub Lives : ℕ → Option ℕ → Type 0
Lives now none = Unit
Lives now (some t) = now < t

-- Of the facts, those that have not expired are left.
abbrev pub FactsKept : ℕ → Tables → Tables → Type 0
FactsKept now before after =
    (f : Fact) → Elem f after.facts ↔ (Elem f before.facts × Lives now f.expires_at)

-- Of the audit rows, those that are not before the cutoff.
abbrev pub AuditKept : ℕ → Tables → Tables → Type 0
AuditKept cutoff before after =
    (e : AuditEntry) → Elem e after.audit ↔ (Elem e before.audit × (cutoff ≤ e.created_at))

live-Lives : (now : ℕ) (t : Option ℕ) → (not (expired_by now t) ≡ true) ↔ Lives now t
live-Lives now none = (λ _. tt, λ _. refl)
live-Lives now (some t) = (λ h. ground arith, λ h. ground arith)

abbrev fresh : ℕ → Tables → List Fact
fresh now t = filter (λ f. not (expired_by now f.expires_at)) t.facts

abbrev recent : ℕ → Tables → List AuditEntry
recent cutoff t = filter (λ e. not (ltb e.created_at cutoff)) t.audit

fresh-Kept :
    (now : ℕ) (t : Tables) (f : Fact)
    → Elem f (fresh now t) ↔ (Elem f t.facts × Lives now f.expires_at)
fresh-Kept now t f = (
  λ m.
      let (held, live) = filter-Elem (λ f. not (expired_by now f.expires_at)) f t.facts m in
      (held, (live-Lives now f.expires_at).0 live),
  λ (held, live).
      Elem-filter (λ f. not (expired_by now f.expires_at)) f t.facts held
        ((live-Lives now f.expires_at).1 live),
)

recent-Kept :
    (cutoff : ℕ) (t : Tables) (e : AuditEntry)
    → Elem e (recent cutoff t) ↔ (Elem e t.audit × (cutoff ≤ e.created_at))
recent-Kept cutoff t e = (
  λ m.
      let (held, late) = filter-Elem (λ e. not (ltb e.created_at cutoff)) e t.audit m in
      (held, ground arith),
  λ (held, late). Elem-filter (λ e. not (ltb e.created_at cutoff)) e t.audit held (ground arith),
)

-- Where the job has stopped: before or after the facts, or at its end, with the counts.
abbrev pub Stopped : ℕ → ℕ → Tables → Result RetentionError Summary × Db → Type 0
Stopped now cutoff before out =
    ((e : RetentionError) × (out.0 ≡ err e)
      × ((out.1.tables ≡ before)
          ⊎ (FactsKept now before out.1.tables
              × (out.1.tables ≡ record before { facts = out.1.tables.facts }))))
    ⊎ ((s : Summary) × (out.0 ≡ ok s)
        × (FactsKept now before out.1.tables
            × AuditKept cutoff before out.1.tables
            × (out.1.tables
                ≡ record before { facts = out.1.tables.facts; audit = out.1.tables.audit })))

module _ {A : Type 0} (wrap : StoreError → RetentionError) where
  wrapped-ok : (r : Result StoreError A × Db) (a : A) → (wrapped wrap r).0 ≡ ok a → r.0 ≡ ok a
  wrapped-ok (ok b, s) a h = cc
  wrapped-ok (err e, s) a h = cc

  wrapped-err :
      (r : Result StoreError A × Db) (e : RetentionError)
      → (wrapped wrap r).0 ≡ err e
      → (f : StoreError) × (r.0 ≡ err f)
  wrapped-err (ok b, s) e h = cc
  wrapped-err (err f, s) e h = (f, refl)

  wrapped-db : (r : Result StoreError A × Db) → (wrapped wrap r).1 ≡ r.1
  wrapped-db (ok b, s) = refl
  wrapped-db (err e, s) = refl

  module _ (what : String) (change : Tables → Env → A × Tables) (db : Db) where
    abbrev out : Result RetentionError A × Db
    out = failing wrap (modify what change) db

    same_tables : out.1.tables ≡ (modify what change db).1.tables
    same_tables = ap (λ (d : Db). d.tables) (wrapped-db (modify what change db))

    failing-ok : (a : A) → out.0 ≡ ok a → out.1.tables ≡ (change db.tables db.env).1
    failing-ok a h =
        same_tables ∙ (modify-ok what change db a (wrapped-ok (modify what change db) a h)).1

    failing-err : (e : RetentionError) → out.0 ≡ err e → out.1.tables ≡ db.tables
    failing-err e h =
        let (f, k) = wrapped-err (modify what change db) e h in
        same_tables ∙ modify-err what change db f k

facts-Kept :
    (now : ℕ) (before after : Tables)
    → after ≡ record before { facts = fresh now before }
    → FactsKept now before after × (after ≡ record before { facts = after.facts })
facts-Kept now before after e =
    subst (λ (t : Tables). FactsKept now before t × (t ≡ record before { facts = t.facts })) (sym e)
      (fresh-Kept now before, refl)

all-Kept :
    (now cutoff : ℕ) (before between after : Tables)
    → between ≡ record before { facts = fresh now before }
    → after ≡ record between { audit = recent cutoff between }
    → FactsKept now before after
      × AuditKept cutoff before after
      × (after ≡ record before { facts = after.facts; audit = after.audit })
all-Kept now cutoff before between after e k =
    let whole : after ≡ record before { facts = fresh now before; audit = recent cutoff before } =
      k ∙ ap (λ (t : Tables). record t { audit = recent cutoff t }) e in
    subst
      (λ (t : Tables).
        FactsKept now before t
        × AuditKept cutoff before t
        × (t ≡ record before { facts = t.facts; audit = t.audit }))
      (sym whole) (fresh-Kept now before, recent-Kept cutoff before, refl)

-- The deletions, with the errors of each.
sweep-Stopped :
    (now cutoff : ℕ) (days : ℤ) (db : Db) → Stopped now cutoff db.tables (sweep now cutoff days db)
unfolding sweep delete_expired_facts age_out_audit
sweep-Stopped now cutoff days db =
    let expire = facts_deleted (λ f. expired_by now f.expires_at) in
    let first = failing expire_failed (delete_expired_facts now) in
    let second = failing age_out_failed (age_out_audit cutoff) in
    let P = Stopped now cutoff db.tables in
    >>=_elim _ P first db
      (λ e h. inl (e, refl, inl (failing-err expire_failed "delete expired facts" expire db e h)))
      λ n h.
        let e₁ = failing-ok expire_failed "delete expired facts" expire db n h in
        >>=_elim _ P second (first db).1
          (λ e k. inl (
            e,
            refl,
            inr (
                facts-Kept now db.tables _ (
                  failing-err age_out_failed "age out audit" (audit_deleted cutoff) (first db).1 e k
                  ∙ e₁)),
          ))
          λ m k. inr (
            record { facts = n; audit = m; retention_days = days; cutoff = cutoff },
            refl,
            all-Kept now cutoff db.tables _ _ e₁
                (failing-ok age_out_failed "age out audit" (audit_deleted cutoff) (first db).1 m k),
          )

module _ (env : String → String) (atoi : String → Option ℤ) (days_before : ℤ → ℕ → ℕ) where
  abbrev pub cutoff_at : ℕ → ℕ
  cutoff_at now = days_before (env_int env atoi "AUDIT_RETENTION_DAYS" (pos 365)) now

  opened-Stopped :
      (failure : Option String) (now : ℕ) (db : Db)
      → Stopped now (cutoff_at now) db.tables (opened env atoi days_before failure now db)
  opened-Stopped none now db = sweep-Stopped now (cutoff_at now) _ db
  opened-Stopped (some e) now db = inl (open_failed e, refl, inl refl)

  -- The job stops with an error, at which the tables are as they were or lack only facts that have
  -- expired; or it succeeds, and of the facts exactly those are left that have not expired at `now`,
  -- of the audit rows exactly those that are not before the cutoff, and no other table has changed.
  -- The cutoff is the configured number of days before `now`, by default 365.
  pub main-Stopped :
      (open_db : String → Option String) (now : ℕ) (db : Db)
      → Stopped now (cutoff_at now) db.tables (main env atoi days_before open_db now db)
  unfolding main
  main-Stopped open_db now db =
      if_elim (λ m. Stopped now (cutoff_at now) db.tables (m db)) (env "DATABASE_URL" == "")
        (raise no_dsn) (opened env atoi days_before (open_db (env "DATABASE_URL")) now)
        (λ _. inl (no_dsn, refl, inl refl))
        λ _. opened-Stopped (open_db (env "DATABASE_URL")) now db
