-- ===== src/Scheduler/Main.antt =====
-- services/scheduler/cmd/scheduler/main.go and internal/config/config.go: which jobs the command
-- loads, and what it submits and logs in its two modes. The environment, the files and the clock are
-- parameters; the health endpoint is not modelled.
pub mod Submitted
use sl_open_bark.Common.{
  ℕ, String, Bool, true, false, List, [], ◌∷◌, ◌++◌, map, if◌then◌else◌, ◌==◌, string_eq,
}
use sl_open_bark.Common.Lists.{length}
use sl_open_bark.Common.Result.{Result, ok, err}
use sl_open_bark.Scheduler.{Job, RunResult, ScheduleError, Cron, run_due}
use sl_open_bark.Scheduler.Client.{Http, Client, Wire, configured, runtime}

pub record Config : Type 0 where
  pub runtime_url : String
  pub runtime_token : String
  pub schedule_file : String
  pub port : String

abbrev first_non_empty : List String → String
first_non_empty [] = ""
first_non_empty (v ∷ vs) = let rest = first_non_empty vs in if v == "" then rest else v

unfoldable pub load : (String → String) → Config
load env = record {
  runtime_url = env "RUNTIME_URL";
  runtime_token = env "RUNTIME_SERVICE_TOKEN";
  schedule_file = env "SCHEDULE_FILE";
  port = first_non_empty (env "PORT" ∷ "8080" ∷ []);
}

abbrev default_schedule : List Job
default_schedule =
    record {
      name = "weekly-leadership-digest";
      spec = "0 13 * * 1";
      recipe = "shared/weekly-digest";
      committee = "leadership";
      params = [];
    }
    ∷ record {
      name = "daily-reimbursement-screening";
      spec = "0 13 * * *";
      recipe = "finance/screen-reimbursement";
      committee = "finance";
      params = ("sheet_id", "") ∷ [];
    }
    ∷ []

-- The two ways in which the jobs fail to load, with the libraries' messages.
pub data ConfigError : Type 0 where
  read_failed parse_failed : String → ConfigError

pub record Files : Type 0 where
  pub read : String → Result String String
  pub parse_jobs : String → Result String (List Job)

abbrev from_parsed : Result String (List Job) → Result ConfigError (List Job)
from_parsed (ok js) = ok js
from_parsed (err e) = err (parse_failed e)

abbrev from_file : Files → Result String String → Result ConfigError (List Job)
from_file files (ok raw) = from_parsed (files.parse_jobs raw)
from_file files (err e) = err (read_failed e)

unfoldable pub jobs : Files → Config → Result ConfigError (List Job)
jobs files c =
    if c.schedule_file == ""
    then ok default_schedule
    else from_file files (files.read c.schedule_file)

pub data Line : Type 0 where
  load_failed : ConfigError → Line
  url_empty : Line
  loaded : ℕ → Line
  run_failed : ScheduleError → Line
  job_failed : String → String → Line
  job_submitted : String → String → Line

abbrev pub line_of : RunResult → Line
line_of r = if r.error == "" then job_submitted r.job r.task_id else job_failed r.job r.error

unfoldable pub report : List RunResult → List Line
report = map line_of

abbrev pub client_of : Config → Client
client_of c = record { base_url = c.runtime_url; token = c.runtime_token }

-- What is logged before the first run.
unfoldable pub banner : Client → List Job → List Line
unfolding configured
banner c js = (if configured c then [] else url_empty ∷ []) ++ loaded (length js) ∷ []

-- `scheduler run`
abbrev pub is_once : List String → Bool
is_once [] = false
is_once (arg ∷ rest) = arg == "run"

module _ (C : Cron) (H : Http) where
  abbrev pub logged : Result ScheduleError (List RunResult) × Wire H → (List Line × Bool) × Wire H
  logged (ok results, w) = ((report results, false), w)
  logged (err e, w) = ((run_failed e ∷ [], true), w)

  -- One run: its lines, and whether it failed, at which `runOnce` exits with 1.
  unfoldable pub run_once : List Job → Client → ℕ → Wire H → (List Line × Bool) × Wire H
  run_once js c now w = logged (run_due C (runtime H c) js now w)

  abbrev pub after :
      (List Line × Bool) × Wire H → (Wire H → List Line × Wire H) → List Line × Wire H
  after ((lines, failed), w) rest = let (later, v) = rest w in (lines ++ later, v)

  -- The loop of `serve` over the ticks that have come, each with its time.
  unfoldable pub serve : List Job → Client → List ℕ → Wire H → List Line × Wire H
  unfolding run_once
  serve js c [] w = ([], w)
  serve js c (now ∷ ticks) w = after (run_once js c now w) (serve js c ticks)

  abbrev served : List Line × Wire H → (List Line × Bool) × Wire H
  served (lines, w) = ((lines, false), w)

  abbrev pub run_mode : Bool → List Job → Client → ℕ → List ℕ → Wire H → (List Line × Bool) × Wire H
  run_mode true js c now ticks w = run_once js c now w
  run_mode false js c now ticks w = served (serve js c ticks w)

  abbrev prefixed : List Line → (List Line × Bool) × Wire H → (List Line × Bool) × Wire H
  prefixed before ((lines, failed), w) = ((before ++ lines, failed), w)

  abbrev pub started :
      Bool
      → Client
      → Result ConfigError (List Job)
      → ℕ
      → List ℕ
      → Wire H
      → (List Line × Bool) × Wire H
  started once c (err e) now ticks w = ((load_failed e ∷ [], true), w)
  started once c (ok js) now ticks w = prefixed (banner c js) (run_mode once js c now ticks w)

  -- The command with its arguments, where the clock reads `now` at its start and `ticks` at the minutes
  -- that have come since: the lines that it logs, and whether it exits with 1.
  pub main :
      Files → (String → String) → List String → ℕ → List ℕ → Wire H → (List Line × Bool) × Wire H
  main files env args now ticks w =
      let config = load env in
      started (is_once args) (client_of config) (jobs files config) now ticks w
