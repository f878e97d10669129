-- ===== src/Scheduler/Due.antt =====
-- scheduler.go: which jobs are submitted.
use sl_open_bark.Common.{
  ℕ, String, Bool, false, List, [], ◌∷◌, map, if◌then◌else◌, ◌≡◌, ◌⊎◌, inl, inr, refl, ap, arith,
  sym,
}
use sl_open_bark.Common.Lists.{All, filter}
use sl_open_bark.Common.Result.{Result, ok, err}
use sl_open_bark.Common.Members.{Elem}
use sl_open_bark.Scheduler.{
  Job, RunResult, ScheduleError, invalid_spec, Cron, Runtime, minute_of, fires, due_at, due_step,
  due, submit_all, run_due,
}

module _ (C : Cron) where
  abbrev fires_of : ℕ → Result String C.Schedule → Bool
  fires_of minute (ok schedule) = fires C minute schedule
  fires_of minute (err e) = false

  -- The next activation of the job's spec after the second before the minute is the minute.
  abbrev pub fires_at : ℕ → Job → Bool
  fires_at minute j = fires_of minute (C.parse j.spec)

  abbrev pub Parses : Job → Type 0
  Parses j = (schedule : C.Schedule) × (C.parse j.spec ≡ ok schedule)

  due_step-ok :
      (minute : ℕ) (j : Job) (p : Result String C.Schedule) (rest : List Job)
      → (schedule : C.Schedule) × (p ≡ ok schedule)
      → due_step C minute j p (ok rest) ≡ ok (if fires_of minute p then j ∷ rest else rest)
  due_step-ok minute j (ok schedule) rest h = refl
  due_step-ok minute j (err e) rest h = ground arith

  due_at-filter :
      (minute : ℕ) (jobs : List Job)
      → All Parses jobs
      → due_at C minute jobs ≡ ok (filter (fires_at minute) jobs)
  unfolding due_at
  due_at-filter minute [] h = refl
  due_at-filter minute (j ∷ js) (p, h) =
      rw (due_at-filter minute js h)
        (due_step-ok minute j (C.parse j.spec) (filter (fires_at minute) js) p)

  abbrev pub Fails : {A : Type 0} → Result ScheduleError A → Type 0
  Fails r = (e : ScheduleError) × (r ≡ err e)

  due_step-Fails :
      (minute : ℕ) (j : Job) (p : Result String C.Schedule) (rest : Result ScheduleError (List Job))
      → ((e : String) × (p ≡ err e)) ⊎ Fails rest
      → Fails (due_step C minute j p rest)
  due_step-Fails minute j (ok schedule) (ok rest) h = ground arith
  due_step-Fails minute j (ok schedule) (err e) h = (e, refl)
  due_step-Fails minute j (err e) rest h = (invalid_spec j.name j.spec e, refl)

  due_at-Fails :
      (minute : ℕ) (jobs : List Job) (j : Job) (e : String)
      → Elem j jobs
      → C.parse j.spec ≡ err e
      → Fails (due_at C minute jobs)
  unfolding due_at
  due_at-Fails minute [] j e m h = absurd m
  due_at-Fails minute (k ∷ ks) j e (inl same) h =
      due_step-Fails minute k (C.parse k.spec) _ (inl (e, rw (sym same) h))
  due_at-Fails minute (k ∷ ks) j e (inr m) h =
      due_step-Fails minute k (C.parse k.spec) _ (inr (due_at-Fails minute ks j e m h))

  module _ (R : Runtime) where
    submit_all-jobs :
        (jobs : List Job) (s : R.State)
        → map (λ r. r.job) (submit_all C R jobs s).0 ≡ map (λ j. j.name) jobs
    unfolding submit_all
    submit_all-jobs [] s = refl
    submit_all-jobs (j ∷ js) s = ap (λ l. j.name ∷ l) (submit_all-jobs js _)

    -- If every spec parses, the run submits exactly the jobs that fire at the minute of `now`,
    -- in their order, whatever the runtime answers, and returns a result for each, named after
    -- its job.
    pub run_due_lem :
        (jobs : List Job) (now : ℕ) (s : R.State)
        → All Parses jobs
        → (results : List RunResult) × ((run_due C R jobs now s)
            ≡ (ok results, (submit_all C R (filter (fires_at (minute_of now)) jobs) s).1))
          × (map (λ r. r.job) results ≡ map (λ j. j.name) (filter (fires_at (minute_of now)) jobs))
    unfolding run_due due
    run_due_lem jobs now s h =
        let due_jobs = filter (fires_at (minute_of now)) jobs in
        (
          (submit_all C R due_jobs s).0,
          rw (due_at-filter (minute_of now) jobs h) refl,
          submit_all-jobs due_jobs s,
        )

    -- If the spec of some job does not parse, the run fails, and it submits nothing: the runtime
    -- is as it was.
    pub run_due-invalid :
        (jobs : List Job) (now : ℕ) (s : R.State) (j : Job) (e : String)
        → Elem j jobs
        → C.parse j.spec ≡ err e
        → Fails (run_due C R jobs now s).0 × ((run_due C R jobs now s).1 ≡ s)
    unfolding run_due due
    run_due-invalid jobs now s j e m h =
        let (failure, is) = due_at-Fails (minute_of now) jobs j e m h in
        rw is ((failure, refl), refl)
