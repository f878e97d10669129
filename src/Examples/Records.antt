-- ===== src/Examples/Records.antt =====
-- Registration, redaction and the context of a turn on the example database.
use sl_open_bark.Common.{true, ℕ, String, List, [], ◌∷◌, Option, some, ◌≡◌, refl, string_eq, nat_eq}
use sl_open_bark.Common.Int.{pos}
use sl_open_bark.Common.Lists.{length, sort_by}
use sl_open_bark.Common.Result.{ok, err}
use sl_open_bark.Store.Models.{
  Json, ServerInput, text, object, end_members, member, document, Members, Fact, Turn,
}
use sl_open_bark.Store.Db.{Db}
use sl_open_bark.Store.Registry.{register_server}
use sl_open_bark.Store.Registry.Registered.{AllInherit, register_server-AllInherit}
use sl_open_bark.Store.Facts.{search_facts, selected, is_current, overlaps, valid_scope}
use sl_open_bark.Gateway.Redact.{redact_args, is_sensitive, lower, codes}
use sl_open_bark.Assembly.{Assembled, Packed, assembled, assemble}
use sl_open_bark.Assembly.Budget.{Budgeted}
use sl_open_bark.Assembly.Builder.{
  TurnInput, build, parts_of, retrieve_memory, retrieve_summary, retrieve_turns,
}
use sl_open_bark.Assembly.Builder.Scoped.{FactsOf, SummaryOf, TurnsOf, Same, build-Budgeted}
use sl_open_bark.Engineering.{Outside, Orchestrator, Task, new_allow, new, run}
use sl_open_bark.Engineering.Contained.{Effects, run-Effects}
use sl_open_bark.Examples.{preference, db}

abbrev workspace_server : ServerInput
workspace_server = record {
  name = "google-workspace";
  owner = "tech";
  description = "";
  endpoint = "http://google-workspace";
  transport = "";
  auth = "";
  tools = record { name = "read_sheet"; scope = "sheets.read"; impact = "read" } ∷ [];
  committees = "tech" ∷ [];
}

register_server-AllInherit_example :
    AllInherit db.tables (register_server workspace_server db).1.tables
register_server-AllInherit_example = register_server-AllInherit workspace_server db

abbrev keep : ℕ → ℕ
keep c = c

abbrev arguments : Members
arguments = member "Token" (text "abc") (member "sheet" (text "s1") end_members)

abbrev masked : Members
masked = member "Token" (text "***") (member "sheet" (text "s1") end_members)

-- Every value is decoded as it stands.
abbrev decodes : Json → Option Json
decodes value = some value

redacted : redact_args keep decodes (document (object arguments)) ≡ document (object masked)
unfolding redact_args is_sensitive nat_eq lower string_eq
redacted = refl

abbrev turn : TurnInput
turn = record {
  session_id = "";
  scope_type = "user";
  scope_id = "u1";
  memory_tags = "style" ∷ [];
  memory_top_k = 5;
  recent_turns = 0;
  system_prompt = "Be brief.";
  goose_hints = "";
  recipe_instructions = "";
  tool_output = "";
  budget = pos 40;
}

abbrev context : Assembled
context =
    assemble (parts_of codes (some length) turn (preference ∷ []) "" []) (pos 40) (some length)

built : (build codes (some length) turn db).0 ≡ ok context
unfolding build retrieve_memory retrieve_summary retrieve_turns search_facts selected is_current
    overlaps valid_scope string_eq sort_by
built = refl

build-Budgeted_example :
    (facts : List Fact) × (summary : String) × (turns : List Turn) × (r : Packed) × FactsOf turn db
      facts
    × ((d : Db) × Same db d × SummaryOf turn d summary)
    × ((d : Db) × Same db d × TurnsOf turn d turns)
    × (context ≡ assembled r)
    × Budgeted length 40 0 (parts_of codes (some length) turn facts summary turns) r
build-Budgeted_example = build-Budgeted codes length turn 39 db context refl built

abbrev outside : Outside
outside = record {
  mint = λ repo. ok "token";
  create = λ spec. ok "sandbox-1";
  exec = λ id. err "tests failed";
  open_pr = λ repo branch issue requester summary. ok "https://example.org/pr/1";
}

abbrev orchestrator : Orchestrator
orchestrator = new outside true (new_allow ("ana" ∷ []) ("org/app" ∷ [])) "base" (pos 0)

abbrev task : Task
task = record { repo = "org/app"; issue = "7"; issue_text = ""; channel = "eng"; requester = "ana" }

abbrev unchanged : String → String
unchanged s = s

run-Effects_example : Effects unchanged orchestrator task (run unchanged orchestrator task).effects
run-Effects_example = run-Effects unchanged orchestrator task
