-- ===== src/Examples/Console.antt =====
-- The dashboard on the example database, with one more approval that waits.
use mathlib.Core.Option.{some-injective}
use sl_open_bark.Common.{
  ◌∙◌, ℕ, true, false, [], ◌∷◌, none, some, ◌≡◌, ◌≢◌, ◌⊎◌, refl, apart, string_eq,
}
use sl_open_bark.Common.Result.{ok}
use sl_open_bark.Store.Models.{Approval, document, null}
use sl_open_bark.Store.Governance.{decide_approval}
use sl_open_bark.Gateway.Policy.{Gateway, has_approval, repository as gateway_store}
use sl_open_bark.Dashboard.{
  Runtime, Decoder, Console, Request, repository, handler, decide_route, problem, decided,
}
use sl_open_bark.Dashboard.Gated.{is_public, handler-Stranger}
use sl_open_bark.Dashboard.Approved.{handler-has_approval}
use sl_open_bark.Dashboard.Statistics.{stats_of}
use sl_open_bark.Dashboard.Statistics.Counted.{counted_stats, stats_of-counted_stats}
use sl_open_bark.Store.Models.{Server, AuditEntry}
use sl_open_bark.Examples.{db, tables, granted, finance_server, pay}

abbrev waiting : Approval
waiting = record granted {
  id = "approval-2";
  session_id = "session-2";
  status = "pending";
  decided_by = "";
  decided_at = none;
}

abbrev approved : Approval
approved = record waiting { status = "approved"; decided_by = "treasurer"; decided_at = some 100 }

-- A runtime that is not configured.
abbrev no_runtime : Runtime
no_runtime = record {
  State = ℕ;
  configured = false;
  relay = λ method path body s. (record { out = ""; code = 503; error = none }, s);
}

abbrev decoder : Decoder
decoder = record {
  login_token = λ body. body;
  lifecycle = λ body. some body;
  enabled = λ body. some true;
  decision = λ body. some (record { status = body; decided_by = "treasurer" });
  atoi = λ v. none;
}

abbrev console : Console repository no_runtime decoder
console = record {
  store = record db { tables = record tables { approvals = granted ∷ waiting ∷ [] } };
  runtime = 0;
}

abbrev stranger : Request
stranger = record {
  route = decide_route "approval-2";
  cookie = some "guess";
  limit = "";
  body = "approved";
}

abbrev maintainer : Request
maintainer = record stranger { cookie = some "secret" }

handler-Stranger_example :
    ((handler repository no_runtime decoder 0 "secret" stranger console).1 ≡ console)
    × ((is_public (decide_route "approval-2") ≡ true)
        ⊎ ((handler repository no_runtime decoder 0 "secret" stranger console).0
            ≡ problem 401 "unauthorized"))
unfolding string_eq
handler-Stranger_example =
    handler-Stranger repository no_runtime decoder 0 "secret" stranger console (
      apart "secret" "" refl,
      λ c h e. apart "guess" "secret" refl (some-injective "guess" c h ∙ e),
    )

abbrev after : Console repository no_runtime decoder
after = (handler repository no_runtime decoder 0 "secret" maintainer console).1

abbrev gateway : Gateway gateway_store
gateway = record { store = after.store; limiter = none; proxied = [] }

taken : (handler repository no_runtime decoder 0 "secret" maintainer console).0 ≡ decided approved
unfolding handler decide_approval string_eq
taken = refl

differs : waiting.session_id ≢ ""
unfolding string_eq
differs = apart "session-2" "" refl

untouched : gateway.store.env.faults ≡ []
unfolding handler decide_approval string_eq
untouched = refl

handler-has_approval_example :
    (has_approval gateway_store (λ m. m) "session-2" "pay" gateway).0 ≡ ok true
handler-has_approval_example =
    handler-has_approval no_runtime decoder (λ m. m) 0 "secret" maintainer console "approval-2"
      (record { status = "approved"; decided_by = "treasurer" }) approved gateway refl refl refl
      taken differs refl untouched

abbrev server : Server
server = record { row = finance_server; tools = pay ∷ []; committees = "finance" ∷ [] }

abbrev denial : AuditEntry
denial = record {
  id = 1;
  actor = "u1";
  tool = "finance-rules/pay";
  args_redacted = document null;
  result = "denied: unauthorized";
  latency_ms = 7;
  created_at = 100;
}

stats_of-counted_stats_example :
    stats_of 200 (server ∷ []) (denial ∷ []) 1 false
    ≡ counted_stats 200 (server ∷ []) (denial ∷ []) 1 false
stats_of-counted_stats_example = stats_of-counted_stats 200 (server ∷ []) (denial ∷ []) 1 false
