-- ===== src/Dashboard/Statistics/Counted.antt =====
-- api.go: the statistics, by what they count.
use sl_open_bark.Common.{
  ℕ, zero, suc, ◌+◌, ◌/◌, String, Bool, List, [], ◌∷◌, ◌++◌, map, Option, none, some, if◌then◌else◌,
  ◌==◌, string_eq, apart, ◌≡◌, refl, arith, ◌∙◌, ap,
}
use sl_open_bark.Common.Lists.{length, filter, filter-append, length-append}
use sl_open_bark.Store.Models.{Server, Tool, AuditEntry, lifecycle_approved, lifecycle_proposed}
use sl_open_bark.Dashboard.Statistics.{
  Stats, Counters, tally_tools, tally_lifecycle, tally_servers, tally_audit, is_failure, is_recent,
  averaged, zero_stats, started, final_stats, stats_of,
}

abbrev pub all_tools : List Server → List Tool
all_tools [] = []
all_tools (s ∷ servers) = s.tools ++ all_tools servers

abbrev pub sum : List ℕ → ℕ
sum [] = 0
sum (n ∷ ns) = n + sum ns

-- How many elements pass a test.
abbrev pub count {ℓ} : {A : Type ℓ} → (A → Bool) → List A → ℕ
count p xs = length (filter p xs)

abbrev pub mean : ℕ → ℕ → ℕ
mean zero total = 0
mean (suc n) total = total / suc n

abbrev pub ratio : ℕ → ℕ → Option (ℕ × ℕ)
ratio errs zero = none
ratio errs (suc n) = some (errs, suc n)

-- The statistics, each by the list that it counts.
abbrev pub counted_stats : ℕ → List Server → List AuditEntry → ℕ → Bool → Stats
counted_stats now servers audit pending available = record {
  servers_total = length servers;
  servers_approved = count (λ s. s.lifecycle == lifecycle_approved) servers;
  servers_proposed = count (λ s. s.lifecycle == lifecycle_proposed) servers;
  tools_total = length (all_tools servers);
  high_impact_tools = count (λ t. t.impact == "high") (all_tools servers);
  pending_approvals = pending;
  audit_24h = count (is_recent now) audit;
  error_rate = ratio (count is_failure audit) (length audit);
  avg_latency_ms = mean (length audit) (sum (map (λ e. e.latency_ms) audit));
  runtime_available = available;
}

tally_tools-counts :
    (ts : List Tool) (st : Stats)
    → tally_tools ts st
      ≡ record st { high_impact_tools = st.high_impact_tools + count (λ t. t.impact == "high") ts }
tally_tools-counts [] st = ground arith
tally_tools-counts (t ∷ ts) st = ground (
  arith,
  tally_tools-counts ts st,
  tally_tools-counts ts (record st { high_impact_tools = suc st.high_impact_tools }),
)

two_lifecycles : lifecycle_approved ≡ lifecycle_proposed → ⊥
unfolding string_eq
two_lifecycles = apart lifecycle_approved lifecycle_proposed refl

tally_lifecycle-counts :
    (lifecycle : String) (st : Stats)
    → tally_lifecycle lifecycle st ≡ record st {
      servers_approved = (if lifecycle == lifecycle_approved then 1 else 0) + st.servers_approved;
      servers_proposed = (if lifecycle == lifecycle_proposed then 1 else 0) + st.servers_proposed;
    }
tally_lifecycle-counts lifecycle st = ground (arith, two_lifecycles)

tally_servers-counts :
    (servers : List Server) (st : Stats)
    → tally_servers servers st ≡ record st {
      servers_approved =
          st.servers_approved + count (λ s. s.lifecycle == lifecycle_approved) servers;
      servers_proposed =
          st.servers_proposed + count (λ s. s.lifecycle == lifecycle_proposed) servers;
      tools_total = st.tools_total + length (all_tools servers);
      high_impact_tools =
          st.high_impact_tools + count (λ t. t.impact == "high") (all_tools servers);
    }
unfolding tally_servers
tally_servers-counts [] st = ground arith
tally_servers-counts (s ∷ servers) st =
    ap (λ x. tally_servers servers (tally_lifecycle s.lifecycle x)) (tally_tools-counts s.tools _)
    ∙ ap (tally_servers servers) (tally_lifecycle-counts s.lifecycle _)
    ∙ tally_servers-counts servers _
    ∙ ground (
      arith,
      length-append s.tools (all_tools servers),
      filter-append (λ t. t.impact == "high") s.tools (all_tools servers),
      length-append (filter (λ t. t.impact == "high") s.tools)
          (filter (λ t. t.impact == "high") (all_tools servers)),
    )

tally_audit-counts :
    (now : ℕ) (audit : List AuditEntry) (c : Counters)
    → tally_audit now audit c ≡ record {
      stats = record c.stats { audit_24h = c.stats.audit_24h + count (is_recent now) audit };
      errs = c.errs + count is_failure audit;
      total_latency = c.total_latency + sum (map (λ e. e.latency_ms) audit);
      counted = c.counted + length audit;
    }
unfolding tally_audit
tally_audit-counts now [] c = ground arith
tally_audit-counts now (e ∷ audit) c = tally_audit-counts now audit _ ∙ ground arith

averaged-mean :
    (c : Counters)
    → c.stats.error_rate ≡ none
    → c.stats.avg_latency_ms ≡ 0
    → averaged c ≡ record c.stats {
      error_rate = ratio c.errs c.counted;
      avg_latency_ms = mean c.counted c.total_latency;
    }
averaged-mean c r l = ground arith

-- The statistics that the loops add up are, for every registry and every audit log that the store
-- returns: the servers, those approved and those proposed; all the servers' tools, and those of high
-- impact; the entries of the last day, the denied or failed ones over all, and the mean latency,
-- where there is an entry.
pub stats_of-counted_stats :
    (now : ℕ) (servers : List Server) (audit : List AuditEntry) (pending : ℕ) (available : Bool)
    → stats_of now servers audit pending available
      ≡ counted_stats now servers audit pending available
unfolding stats_of
stats_of-counted_stats now servers audit pending available =
    ap (λ st. final_stats (tally_audit now audit (started st)) pending available)
      (tally_servers-counts servers (record zero_stats { servers_total = length servers }))
    ∙ ap (λ c. final_stats c pending available) (tally_audit-counts now audit _)
    ∙ ap (λ (st : Stats). record st { pending_approvals = pending; runtime_available = available })
        (averaged-mean _ refl refl)
    ∙ ground arith
