-- ===== src/Engineering.antt =====
-- services/engineering-agent/internal: who may trigger a coding task (authz/authz.go), and a task's
-- run (orchestrator/orchestrator.go, with the hosts of egress/egress.go), as the effects it has on
-- GitHub, the sandbox and Slack in their order. The texts of messages stand by what they are made
-- from; `branch_name` is what package regexp makes of an issue in lower case.
pub mod Allowlist
pub mod Contained
pub mod Egress
use sl_open_bark.Common.{
  ℕ, ◌*◌, String, ◌<>◌, Bool, true, false, not, ◌&&◌, List, [], ◌∷◌, ◌++◌, map, Option, none, some,
  if◌then◌else◌, ◌==◌, string_eq, contains, leb,
}
use sl_open_bark.Common.Dict.{Dict}
use sl_open_bark.Common.Int.{ℤ, pos, le_int}
use sl_open_bark.Common.Lists.{filter}
use sl_open_bark.Common.Result.{Result, ok, err}
use sl_open_bark.Common.Text.{trim_space}

-- The keys of the two maps.
pub record Allow : Type 0 where
  pub maintainers : List String
  pub repos : List String

abbrev pub not_blank : String → Bool
not_blank s = not (s == "")

pub names_of : List String → List String
unfolding trim_space
names_of names = filter not_blank (map trim_space names)

abbrev pub new_allow : List String → List String → Allow
new_allow maintainers repos = record { maintainers = names_of maintainers; repos = names_of repos }

pub can_trigger : Allow → String → String → Bool
can_trigger a user repo = contains a.maintainers user && contains a.repos repo

abbrev pub allowed_hosts : List String
allowed_hosts =
    "github.com" ∷ "api.github.com" ∷ "codeload.github.com" ∷ "objects.githubusercontent.com"
    ∷ "raw.githubusercontent.com" ∷ "ghcr.io" ∷ "proxy.golang.org" ∷ "sum.golang.org" ∷ "go.dev"
    ∷ "golang.org" ∷ "registry.npmjs.org" ∷ "pypi.org" ∷ "files.pythonhosted.org" ∷ "crates.io"
    ∷ "static.crates.io" ∷ "rubygems.org" ∷ "deb.debian.org" ∷ "security.debian.org"
    ∷ "archive.ubuntu.com" ∷ "ports.ubuntu.com" ∷ []

pub record Spec : Type 0 where
  pub template : String
  pub egress_allowlist : List String
  pub time_limit : ℤ
  pub env : Dict String

pub record Task : Type 0 where
  pub repo : String
  pub issue : String
  pub issue_text : String
  pub channel : String
  pub requester : String

pub record TaskResult : Type 0 where
  pub pr_url : String
  pub branch : String
  pub summary : String
  pub sandbox_id : String

pub data RunError : Type 0 where
  unauthorized : RunError
  mint_token create_sandbox sandbox_run open_draft_pr : String → RunError

-- The text of a report.
pub data Note : Type 0 where
  failed_in_sandbox : String → String → String → Note
  draft_ready : String → String → String → String → Note

pub data Effect : Type 0 where
  minted : String → Effect
  create_failed : Spec → Effect
  created : Spec → String → Effect
  ran : String → Effect
  opened : String → String → String → String → String → Effect
  posted : String → Note → Effect
  destroyed : String → Effect

-- The systems outside, by what they answer.
pub record Outside : Type 0 where
  pub mint : String → Result String String
  pub create : Spec → Result String String
  pub exec : String → Result String String
  pub open_pr : String → String → String → String → String → Result String String

pub record Orchestrator : Type 0 where
  pub outside : Outside
  pub notifies : Bool
  pub allow : Allow
  pub template : String
  pub time_limit : ℤ

-- 20 minutes, in nanoseconds
abbrev pub default_limit : ℤ
default_limit = pos (1200 * 1000000000)

unfoldable pub new : Outside → Bool → Allow → String → ℤ → Orchestrator
new outside notifies allow template limit = record {
  outside = outside;
  notifies = notifies;
  allow = allow;
  template = template;
  time_limit = if le_int limit (pos 0) then default_limit else limit;
}

-- `Run` returns a result beside an error too.
pub record Outcome : Type 0 where
  pub result : TaskResult
  pub error : Option RunError
  pub effects : List Effect

abbrev outcome : String → String → String → String → Option RunError → List Effect → Outcome
outcome url branch summary id error effects = record {
  result = record { pr_url = url; branch = branch; summary = summary; sandbox_id = id };
  error = error;
  effects = effects;
}

module _ (branch_name : String → String) (o : Orchestrator) (task : Task) where
  abbrev pub branch_of : String
  branch_of = "agent/fix-" <> branch_name task.issue

  abbrev pub spec_of : String → Spec
  spec_of token = record {
    template = o.template;
    egress_allowlist = allowed_hosts;
    time_limit = o.time_limit;
    env =
        ("GITHUB_TOKEN", token)
        ∷ ("REPO", task.repo)
        ∷ ("BRANCH", branch_of)
        ∷ ("ISSUE", task.issue)
        ∷ [];
  }

  abbrev report : Note → List Effect
  report note = if o.notifies && not (task.channel == "") then posted task.channel note ∷ [] else []

  abbrev opening : String → Effect
  opening summary = opened task.repo branch_of task.issue task.requester summary

  abbrev pub with_pr : String → String → Result String String → Outcome
  with_pr id summary (err e) =
      outcome "" branch_of summary id (some (open_draft_pr e)) (opening summary ∷ [])
  with_pr id summary (ok url) =
      outcome url branch_of summary id none
        (opening summary ∷ report (draft_ready task.repo task.issue url summary))

  abbrev pub after_run : String → Result String String → Outcome
  after_run id (err e) =
      outcome "" "" "" id (some (sandbox_run e)) (report (failed_in_sandbox task.repo task.issue e))
  after_run id (ok summary) =
      with_pr id summary (o.outside.open_pr task.repo branch_of task.issue task.requester summary)

  -- The deferred `Destroy` comes last, whatever happened before.
  abbrev pub in_sandbox : String → String → Outcome → Outcome
  in_sandbox token id out = record out {
    effects =
        minted task.repo ∷ created (spec_of token) id ∷ ran id ∷ (out.effects ++ destroyed id ∷ []);
  }

  abbrev pub with_sandbox : String → Result String String → Outcome
  with_sandbox token (err e) =
      outcome "" "" "" "" (some (create_sandbox e))
        (minted task.repo ∷ create_failed (spec_of token) ∷ [])
  with_sandbox token (ok id) = in_sandbox token id (after_run id (o.outside.exec id))

  abbrev pub with_token : Result String String → Outcome
  with_token (err e) = outcome "" "" "" "" (some (mint_token e)) (minted task.repo ∷ [])
  with_token (ok token) = with_sandbox token (o.outside.create (spec_of token))

  pub run : Outcome
  unfolding can_trigger
  run =
      if can_trigger o.allow task.requester task.repo
      then with_token (o.outside.mint task.repo)
      else outcome "" "" "" "" (some unauthorized) []
