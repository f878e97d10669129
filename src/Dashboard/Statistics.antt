-- ===== src/Dashboard/Statistics.antt =====
-- services/dashboard/internal/server/api.go, `handleStats`: the counts over the registry and the
-- audit log. Times are microseconds; the rate of errors stands by its two numbers.
pub mod Counted
use text.Mathlib.Text
use sl_open_bark.Common.{
  ℕ, suc, ◌+◌, ◌*◌, ◌/◌, String, Bool, false, ◌||◌, List, [], ◌∷◌, Option, none, some,
  if◌then◌else◌, ◌==◌, string_eq, ltb,
}
use sl_open_bark.Common.Lists.{length}
use sl_open_bark.Store.Models.{Server, Tool, AuditEntry, lifecycle_approved, lifecycle_proposed}

-- `error_rate` is errors over entries, and none for 0.
pub record Stats : Type 0 where
  pub servers_total : ℕ
  pub servers_approved : ℕ
  pub servers_proposed : ℕ
  pub tools_total : ℕ
  pub high_impact_tools : ℕ
  pub pending_approvals : ℕ
  pub audit_24h : ℕ
  pub error_rate : Option (ℕ × ℕ)
  pub avg_latency_ms : ℕ
  pub runtime_available : Bool

abbrev pub day : ℕ
day = 24 * (60 * (60 * 1000000))

-- The loops change the counters of a `Stats`, and three more.
pub record Counters : Type 0 where
  pub stats : Stats
  pub errs : ℕ
  pub total_latency : ℕ
  pub counted : ℕ

abbrev tally_tools : List Tool → Stats → Stats
tally_tools [] st = st
tally_tools (t ∷ ts) st =
    tally_tools ts (
      if t.impact == "high" then record st { high_impact_tools = suc st.high_impact_tools } else st)

abbrev tally_lifecycle : String → Stats → Stats
tally_lifecycle lifecycle st =
    if lifecycle == lifecycle_approved
    then record st { servers_approved = suc st.servers_approved }
    else if lifecycle == lifecycle_proposed
    then record st { servers_proposed = suc st.servers_proposed }
    else st

pub tally_servers : List Server → Stats → Stats
tally_servers [] st = st
tally_servers (s ∷ servers) st = tally_servers servers (
    tally_lifecycle s.lifecycle
      (tally_tools s.tools (record st { tools_total = st.tools_total + length s.tools })))

-- The call was denied, or failed.
abbrev pub is_failure : AuditEntry → Bool
is_failure e = Text.starts_with e.result "denied" || Text.starts_with e.result "error"

-- Created after `now` less a day.
abbrev pub is_recent : ℕ → AuditEntry → Bool
is_recent now e = ltb now (e.created_at + day)

abbrev add_if : Bool → ℕ → ℕ
add_if b n = if b then suc n else n

pub tally_audit : ℕ → List AuditEntry → Counters → Counters
tally_audit now [] c = c
tally_audit now (e ∷ audit) c = tally_audit now audit (record {
  stats = record c.stats { audit_24h = add_if (is_recent now e) c.stats.audit_24h };
  errs = add_if (is_failure e) c.errs;
  total_latency = c.total_latency + e.latency_ms;
  counted = suc c.counted;
})

abbrev averaged : Counters → Stats
averaged c =
    if ltb 0 c.counted
    then record c.stats {
      error_rate = some (c.errs, c.counted);
      avg_latency_ms = c.total_latency / c.counted;
    }
    else c.stats

abbrev zero_stats : Stats
zero_stats = record {
  servers_total = 0;
  servers_approved = 0;
  servers_proposed = 0;
  tools_total = 0;
  high_impact_tools = 0;
  pending_approvals = 0;
  audit_24h = 0;
  error_rate = none;
  avg_latency_ms = 0;
  runtime_available = false;
}

abbrev registry_stats : List Server → Stats
registry_stats servers =
    tally_servers servers (record zero_stats { servers_total = length servers })

abbrev started : Stats → Counters
started st = record { stats = st; errs = 0; total_latency = 0; counted = 0 }

abbrev final_stats : Counters → ℕ → Bool → Stats
final_stats c pending available = record (averaged c) {
  pending_approvals = pending;
  runtime_available = available;
}

-- The statistics, from what the three reads return.
pub stats_of : ℕ → List Server → List AuditEntry → ℕ → Bool → Stats
unfolding tally_servers tally_audit
stats_of now servers audit pending available =
    final_stats (tally_audit now audit (started (registry_stats servers))) pending available
