-- ===== src/Scheduler/Main/Submitted.antt =====
-- The scheduler's command: which requests it makes of the runtime, and what it logs of each job.
use mathlib.Core.List.{append_assoc, append-nil, flat_map}
use sl_open_bark.Common.{
  ℕ, String, ◌<>◌, none, some, Bool, true, false, List, [], ◌∷◌, ◌++◌, map, if◌then◌else◌, ◌==◌,
  string_eq, ◌≡◌, refl, sym, ap, ◌∙◌, inl, inr, Bool-cases,
}
use sl_open_bark.Common.Lists.{All, filter, flat_map-append}
use sl_open_bark.Common.Result.{ok}
use sl_open_bark.Scheduler.{Job, RunResult, Cron, minute_of, submit_all}
use sl_open_bark.Scheduler.Client.{
  HttpRequest, Http, Client, Wire, configured, request_of, submit, runtime,
}
use sl_open_bark.Scheduler.Due.{Parses, fires_at, run_due_lem}
use sl_open_bark.Scheduler.Main.{
  Files, Line, load_failed, url_empty, loaded, run_failed, job_failed, job_submitted, line_of,
  report, load, banner, jobs, run_once, serve, run_mode, is_once, client_of, main,
}

abbrev pub requested : Client → Job → HttpRequest
requested c j = record {
  url = c.base_url <> "/tasks";
  body = record { recipe_id = j.recipe; committee = j.committee; params = j.params };
  authorization = if c.token == "" then none else some ("Bearer " <> c.token);
}

-- The request for a job, if a runtime is configured: to its tasks, of the job's recipe, committee and
-- parameters, with the service's token if that is not blank.
abbrev pub asked_by : Client → Job → List HttpRequest
asked_by c j = if configured c then requested c j ∷ [] else []

-- The job that a line reports on.
abbrev pub about : Line → List String
about (load_failed e) = []
about url_empty = []
about (loaded n) = []
about (run_failed e) = []
about (job_failed job e) = job ∷ []
about (job_submitted job task) = job ∷ []

about-line_of : (r : RunResult) → about (line_of r) ≡ r.job ∷ []
about-line_of r = elim (Bool-cases (r.error == "")) [ inl h ↦ rw h refl | inr h ↦ rw h refl ]

about-report : (rs : List RunResult) → flat_map about (report rs) ≡ map (λ r. r.job) rs
unfolding flat_map report
about-report [] = refl
about-report (r ∷ rs) = rw (about-line_of r) (ap (λ l. r.job ∷ l) (about-report rs))

about-banner : (c : Client) (js : List Job) → flat_map about (banner c js) ≡ []
unfolding banner flat_map
about-banner c js = elim (Bool-cases (configured c)) [ inl h ↦ rw h refl | inr h ↦ rw h refl ]

-- The times at which the command runs its jobs.
abbrev pub times : Bool → ℕ → List ℕ → List ℕ
times true now ticks = now ∷ []
times false now ticks = ticks

module _ (C : Cron) where
  abbrev pub due_now : List Job → ℕ → List Job
  due_now js now = filter (fires_at C (minute_of now)) js

  abbrev pub due_names : List Job → ℕ → List String
  due_names js now = map (λ j. j.name) (due_now js now)

  abbrev pub due_requests : Client → List Job → ℕ → List HttpRequest
  due_requests c js now = flat_map (asked_by c) (due_now js now)

  module _ (H : Http) (c : Client) where
    submit-asked :
        (j : Job) (w : Wire H)
        → (submit H c j.recipe j.committee j.params w).1.0 ≡ w.0 ++ asked_by c j
    unfolding submit configured request_of
    submit-asked j w = elim (Bool-cases (configured c)) [
      | inl h ↦ rw h refl
      | inr h ↦ rw h (sym (append-nil w.0))
    ]

    submit_all-asked :
        (js : List Job) (w : Wire H)
        → (submit_all C (runtime H c) js w).1.0 ≡ w.0 ++ flat_map (asked_by c) js
    unfolding submit_all flat_map
    submit_all-asked [] w = sym (append-nil w.0)
    submit_all-asked (j ∷ js) w =
        submit_all-asked js _
        ∙ ap (λ l. l ++ flat_map (asked_by c) js) (submit-asked j w)
        ∙ append_assoc w.0 (asked_by c j) _

    -- The run asks for the jobs that are due, and reports each.
    run_once-Asked :
        (js : List Job) (now : ℕ) (w : Wire H)
        → All (Parses C) js
        → ((run_once C H js c now w).1.0 ≡ w.0 ++ due_requests c js now)
          × (flat_map about (run_once C H js c now w).0.0 ≡ due_names js now)
    unfolding run_once
    run_once-Asked js now w h =
        let (results, out, names) = run_due_lem C (runtime H c) js now w h in
        rw out (submit_all-asked (due_now js now) w, about-report results ∙ names)

    serve-Asked :
        (js : List Job) (ticks : List ℕ) (w : Wire H)
        → All (Parses C) js
        → ((serve C H js c ticks w).1.0 ≡ w.0 ++ flat_map (due_requests c js) ticks)
          × (flat_map about (serve C H js c ticks w).0 ≡ flat_map (due_names js) ticks)
    unfolding serve flat_map
    serve-Asked js [] w h = (sym (append-nil w.0), refl)
    serve-Asked js (now ∷ ticks) w h =
        let (asked, names) = run_once-Asked js now w h in
        let (later, more) = serve-Asked js ticks (run_once C H js c now w).1 h in
        (
          later
              ∙ ap (λ l. l ++ flat_map (due_requests c js) ticks) asked
              ∙ append_assoc w.0 (due_requests c js now) _,
          flat_map-append about (run_once C H js c now w).0.0 _ ∙ rw (names, more) refl,
        )

    run_mode-Asked :
        (once : Bool) (js : List Job) (now : ℕ) (ticks : List ℕ) (w : Wire H)
        → All (Parses C) js
        → ((run_mode C H once js c now ticks w).1.0
            ≡ w.0 ++ flat_map (due_requests c js) (times once now ticks))
          × (flat_map about (run_mode C H once js c now ticks w).0.0
              ≡ flat_map (due_names js) (times once now ticks))
    unfolding flat_map
    run_mode-Asked true js now ticks w h =
        rw (append-nil (due_requests c js now), append-nil (due_names js now))
          (run_once-Asked js now w h)
    run_mode-Asked false js now ticks w h = serve-Asked js ticks w h

  module _ (H : Http) where
    -- If the jobs load and every spec parses, the command asks the runtime, at every time at which it
    -- runs, for exactly the jobs that fire at that time's minute, in their order and with their
    -- recipe, committee, parameters and the service's token, whatever the runtime answers; it asks
    -- nothing without a runtime's address. In both cases it logs one line on each of these jobs.
    pub main-Asked :
        (files : Files) (env : String → String) (args : List String) (now : ℕ) (ticks : List ℕ)
        (js : List Job) (w : Wire H)
        → jobs files (load env) ≡ ok js
        → All (Parses C) js
        → ((main C H files env args now ticks w).1.0
            ≡ w.0
              ++ flat_map (due_requests (client_of (load env)) js) (times (is_once args) now ticks))
          × (flat_map about (main C H files env args now ticks w).0.0
              ≡ flat_map (due_names js) (times (is_once args) now ticks))
    unfolding main
    main-Asked files env args now ticks js w found h =
        let c = client_of (load env) in
        let (asked, names) = run_mode-Asked H c (is_once args) js now ticks w h in
        rw found (asked, flat_map-append about (banner c js) _ ∙ rw (about-banner c js) names)
