-- ===== src/Store/Retention.antt =====
-- services/session-memory/cmd/retention/main.go: the job that deletes what is past its time. The
-- environment, `strconv.Atoi`, the error of opening the database, the clock and the time a number of
-- days before another (`AddDate`) are parameters.
pub mod Retained
use sl_open_bark.Common.{ℕ, String, Option, none, some, if◌then◌else◌, ◌==◌, string_eq}
use sl_open_bark.Common.Int.{ℤ, pos}
use sl_open_bark.Common.Result.{Result, ok, err, Action, pure, raise, continue_with, ◌>>=◌}
use sl_open_bark.Store.Db.{Db, StoreError, Query}
use sl_open_bark.Store.Facts.{delete_expired_facts}
use sl_open_bark.Store.Governance.{age_out_audit}

-- The errors at which the job exits with 1.
pub data RetentionError : Type 0 where
  no_dsn : RetentionError
  open_failed : String → RetentionError
  expire_failed age_out_failed : StoreError → RetentionError

-- What the job logs at its end.
pub record Summary : Type 0 where
  pub facts : ℕ
  pub audit : ℕ
  pub retention_days : ℤ
  pub cutoff : ℕ

abbrev or_default : ℤ → Option ℤ → ℤ
or_default def none = def
or_default def (some n) = n

abbrev pub env_int : (String → String) → (String → Option ℤ) → String → ℤ → ℤ
env_int env atoi key def = if env key == "" then def else or_default def (atoi (env key))

module _ {A : Type 0} (wrap : StoreError → RetentionError) where
  abbrev pub wrapped : Result StoreError A × Db → Result RetentionError A × Db
  wrapped (ok a, s) = (ok a, s)
  wrapped (err e, s) = (err (wrap e), s)

  abbrev pub failing : Query A → Action Db RetentionError A
  failing m s = wrapped (m s)

pub sweep : ℕ → ℕ → ℤ → Action Db RetentionError Summary
sweep now cutoff days = do
  facts ← failing expire_failed (delete_expired_facts now)
  audit ← failing age_out_failed (age_out_audit cutoff)
  pure (record { facts = facts; audit = audit; retention_days = days; cutoff = cutoff })

module _ (env : String → String) (atoi : String → Option ℤ) (days_before : ℤ → ℕ → ℕ) where
  abbrev pub opened : Option String → ℕ → Action Db RetentionError Summary
  opened (some e) now = raise (open_failed e)
  opened none now =
      let days = env_int env atoi "AUDIT_RETENTION_DAYS" (pos 365) in
      sweep now (days_before days now) days

  pub main : (String → Option String) → ℕ → Action Db RetentionError Summary
  main open_db now =
      if env "DATABASE_URL" == "" then raise no_dsn else opened (open_db (env "DATABASE_URL")) now
