-- ===== src/Scheduler.antt =====
-- services/scheduler/internal/scheduler/scheduler.go: the jobs that are due, and their submission.
-- Times are nanoseconds of UTC. The cron package is a parameter: a parser, and the next activation
-- of a schedule after a time. The runtime is a client with a state, whose answer is a task id.
pub mod Due
pub mod Client
pub mod Main
use sl_open_bark.Common.{
  ℕ, ◌+◌, ◌-◌, ◌*◌, ◌%◌, String, Bool, true, false, List, [], ◌∷◌, Option, none, some,
  if◌then◌else◌, ◌==◌, nat_eq,
}
use sl_open_bark.Common.Dict.{Dict}
use sl_open_bark.Common.Result.{Result, ok, err}

pub record Job : Type 0 where
  pub name : String
  pub spec : String
  pub recipe : String
  pub committee : String
  pub params : Dict String

pub record RunResult : Type 0 where
  pub job : String
  pub task_id : String
  pub error : String

-- The spec of a job that does not parse, with the parser's message.
pub data ScheduleError : Type 0 where
  invalid_spec : String → String → String → ScheduleError

pub record Cron : Type 1 where
  pub Schedule : Type 0
  pub parse : String → Result String Schedule
  pub next : Schedule → ℕ → ℕ

-- The answer of `Submit` is the task id, with the text of an error if there is one.
pub record Runtime : Type 1 where
  pub State : Type 0
  pub submit : String → String → Dict String → State → (String × Option String) × State

abbrev pub second : ℕ
second = 1000000000

abbrev pub minute_of : ℕ → ℕ
minute_of now = now - now % (60 * second)

module _ (C : Cron) where
  abbrev pub fires : ℕ → C.Schedule → Bool
  fires minute schedule = C.next schedule (minute - second) == minute

  abbrev kept :
      ℕ → Job → C.Schedule → Result ScheduleError (List Job) → Result ScheduleError (List Job)
  kept minute j schedule (ok jobs) = ok (if fires minute schedule then j ∷ jobs else jobs)
  kept minute j schedule (err e) = err e

  abbrev due_step :
      ℕ
      → Job
      → Result String C.Schedule
      → Result ScheduleError (List Job)
      → Result ScheduleError (List Job)
  due_step minute j (ok schedule) rest = kept minute j schedule rest
  due_step minute j (err e) rest = err (invalid_spec j.name j.spec e)

  -- The loop of `Due`.
  pub due_at : ℕ → List Job → Result ScheduleError (List Job)
  due_at minute [] = ok []
  due_at minute (j ∷ js) = due_step minute j (C.parse j.spec) (due_at minute js)

  pub due : List Job → ℕ → Result ScheduleError (List Job)
  unfolding due_at
  due jobs now = due_at (minute_of now) jobs

  module _ (R : Runtime) where
    abbrev text_of : Option String → String
    text_of none = ""
    text_of (some e) = e

    abbrev submitted :
        Job
        → (String × Option String) × R.State
        → (R.State → List RunResult × R.State)
        → List RunResult × R.State
    submitted j ((task, e), s) rest =
        let (results, t) = rest s in
        (record { job = j.name; task_id = task; error = text_of e } ∷ results, t)

    -- The loop of `RunDue`.
    pub submit_all : List Job → R.State → List RunResult × R.State
    submit_all [] s = ([], s)
    submit_all (j ∷ js) s = submitted j (R.submit j.recipe j.committee j.params s) (submit_all js)

    abbrev run_jobs :
        Result ScheduleError (List Job) → R.State → Result ScheduleError (List RunResult) × R.State
    run_jobs (err e) s = (err e, s)
    run_jobs (ok jobs) s = let (results, t) = submit_all jobs s in (ok results, t)

    pub run_due : List Job → ℕ → R.State → Result ScheduleError (List RunResult) × R.State
    unfolding due submit_all
    run_due jobs now s = run_jobs (due jobs now) s
