-- ===== src/Examples/Gate.antt =====
-- The store and the gateway on the example database.
use sl_open_bark.Common.{
  ℕ, ◌+◌, ◌-◌, ◌*◌, ◌/◌, ltb, leb, String, true, false, List, [], ◌∷◌, Option, none, some, ◌≡◌,
  refl, ◌↔◌, arith, if◌then◌else◌, ◌==◌, string_eq, apart,
}
use Prim.Native.Nat.{min, max}
use sl_open_bark.Common.Lists.{sort_by}
use sl_open_bark.Common.Members.{Elem}
use sl_open_bark.Common.Dict.{lookup}
use sl_open_bark.Common.Result.{ok}
use sl_open_bark.Store.Models.{FactInput, FactQuery, RawMessage, document, null}
use sl_open_bark.Store.Facts.{
  search_facts, write_fact, forget_facts_by_key, valid_scope, selected, is_current, overlaps,
}
use sl_open_bark.Store.Facts.Scope.{Admits, search_facts-Elem}
use sl_open_bark.Store.Facts.Isolation.{SameScope, search_facts-write_fact}
use sl_open_bark.Gateway.Limits.{
  Arithmetic, RateLimiter, new_rate_limiter, allow_in, allow_key, step_bucket, spend, refill,
}
use sl_open_bark.Gateway.Limits.Bounds.{Exact, allowed, count, allowed-new_rate_limiter}
use sl_open_bark.Gateway.Policy.{Identity, CallRequest, World, Gateway, repository, call}
use sl_open_bark.Gateway.Policy.Audited.{logged, Ends, call-Ends}
use sl_open_bark.Gateway.Policy.Cleared.{Outcome, call-Cleared}
use sl_open_bark.Gateway.Server.{
  Server as HttpServer, Request, call_route, header_identity, handler,
}
use sl_open_bark.Gateway.Server.Guarded.{Guarded, trace, handler-Guarded}
use sl_open_bark.Memory.{repository as repo, SearchInput, ForgetInput, search, forget}
use sl_open_bark.Memory.Scoped.{Wanted, search-Wanted, forget-Forgets, Forgets}
use sl_open_bark.Examples.{preference, db}

abbrev user_query : FactQuery
user_query = record {
  scope_type = "user";
  scope_id = "u1";
  tags = [];
  limit = 0;
  include_expired = false;
}

found : (search_facts user_query db).0 ≡ ok (preference ∷ [])
unfolding search_facts selected is_current overlaps valid_scope string_eq sort_by
found = refl

search_facts-Elem_example :
    Elem preference (preference ∷ [])
    ↔ (Elem preference db.facts × Admits user_query 100 preference)
search_facts-Elem_example = search_facts-Elem user_query db (preference ∷ []) preference refl found

abbrev committee_fact : FactInput
committee_fact = record {
  scope_type = "committee";
  scope_id = "u1";
  key = "units";
  value = "imperial";
  tags = [];
  source = "";
  expires_at = none;
}

other_type : ¬ SameScope user_query "committee" "u1"
unfolding string_eq
other_type (t, i) = apart "user" "committee" refl t

search_facts-write_fact_example :
    (search_facts user_query (record db { tables = (write_fact committee_fact db).1.tables })).0
    ≡ (search_facts user_query db).0
search_facts-write_fact_example = search_facts-write_fact user_query committee_fact db other_type

-- An arithmetic without rounding.
abbrev pub float : Arithmetic
float = record {
  of_int = λ n. n;
  add = λ a b. a + b;
  sub = λ a b. a - b;
  mul = λ a b. a * b;
  div = λ a b. a / b;
  greater = λ a b. ltb b a;
  at_least = λ a b. leb b a;
  seconds = λ n. n / 1000000000;
}

float-Exact : Exact float
float-Exact = record { compared = λ n h. refl; less_one = λ n h. omega arith }

abbrev callers : List String
callers = "finance" ∷ "tech" ∷ "finance" ∷ []

allowed-new_rate_limiter_example :
    allowed float "finance" 7 (new_rate_limiter float 10 1) callers
    ≡ min (count "finance" callers) (max 1 1)
allowed-new_rate_limiter_example =
    allowed-new_rate_limiter float float-Exact "finance" 10 1 7 callers (omega arith)

abbrev narrow : RateLimiter
narrow = record { buckets = []; rate = 1; burst = 1 }

abbrev spent : RateLimiter
spent = record { buckets = ("_global", record { tokens = 0; last = 5 }) ∷ []; rate = 1; burst = 1 }

committee_allows : (allow_key float narrow "finance" 6).0 ≡ true
unfolding allow_key step_bucket spend refill lookup
committee_allows = refl

global_denies : (allow_in float (some spent) "_global" 7).0 ≡ false
unfolding allow_in allow_key step_bucket spend refill lookup string_eq
global_denies = refl

abbrev pub world : World
world = record {
  float = float;
  now = 6;
  later = 7;
  latency_ms = 2;
  respond = λ server tool args. ok (document null);
}

abbrev pub same : RawMessage → RawMessage
same args = args

abbrev treasurer : Identity
treasurer = record { subject = "ana"; committees = "finance" ∷ []; is_agent = false }

abbrev pub request : CallRequest
request = record {
  identity = treasurer;
  session_id = "session-1";
  server_name = "finance-rules";
  tool_name = "pay";
  args = document null;
}

abbrev pub gateway : Gateway repository
gateway = record { store = db; limiter = none; proxied = [] }

call-Cleared_example :
    Outcome same world request gateway (call repository same world request gateway).1
call-Cleared_example = call-Cleared same world request gateway

abbrev headers : String → String
headers name =
    if name == "Authorization"
    then "Bearer key"
    else if name == "X-ScottyLabs-Subject"
    then "ana"
    else if name == "X-ScottyLabs-Committees"
    then "tech, finance"
    else ""

abbrev http_request : Request
http_request = record {
  route = some call_route;
  header = headers;
  body = some (record {
    session_id = "session-1";
    server = "finance-rules";
    tool = "pay";
    args = document null;
  });
}

abbrev server : HttpServer repository same
server = record { gw = gateway; token = "key"; resolve = header_identity }

handler-Guarded_example :
    Guarded same world http_request server
      (trace same world (handler repository same world http_request server))
handler-Guarded_example = handler-Guarded same world http_request server

abbrev search_input : SearchInput
search_input = record { scope_type = "user"; scope_id = "u1"; tags = []; limit = 0 }

abbrev never : String → Option ℕ
never text = none

searched : (search repo never search_input db).0 ≡ ok (record { facts = preference ∷ [] })
unfolding search search_facts selected is_current overlaps valid_scope string_eq sort_by
searched = refl

search-Wanted_example :
    Elem preference (preference ∷ [])
    ↔ (Elem preference db.facts × Wanted never search_input 100 preference)
search-Wanted_example =
    search-Wanted never search_input db (record { facts = preference ∷ [] }) preference refl
      searched

abbrev forget_input : ForgetInput
forget_input = record { id = ""; scope_type = "user"; scope_id = "u1"; key = "units" }

forgot : (forget repo never forget_input db).0 ≡ ok (record { deleted = 1 })
unfolding forget forget_facts_by_key string_eq
forgot = refl

forget-Forgets_example :
    Forgets never forget_input db (record { deleted = 1 }) (forget repo never forget_input db).1
forget-Forgets_example = forget-Forgets never forget_input db (record { deleted = 1 }) refl forgot

abbrev logging_gateway : Gateway (logged repository)
logging_gateway = record { store = (db, []); limiter = none; proxied = [] }

call-Ends_example :
    Ends repository same world request logging_gateway
      (call (logged repository) same world request logging_gateway)
call-Ends_example = call-Ends repository same world request logging_gateway
