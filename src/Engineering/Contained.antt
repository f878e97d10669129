-- ===== src/Engineering/Contained.antt =====
-- orchestrator.go: what a run does.
use sl_open_bark.Common.{
  String, true, false, List, [], ◌∷◌, ◌++◌, some, not, ◌&&◌, ◌==◌, string_eq, ◌≡◌, if_elim,
}
use sl_open_bark.Common.Lists.{All}
use sl_open_bark.Common.Result.{Result, ok, err}
use sl_open_bark.Engineering.{
  Task, Orchestrator, Outcome, Effect, unauthorized, minted, create_failed, created, ran, opened,
  posted, destroyed, can_trigger, spec_of, Note, outcome, report, with_pr, after_run, with_sandbox,
  with_token, run,
}

module _ (branch_name : String → String) (o : Orchestrator) (task : Task) where
  -- An effect that stays with the task: a proposal on its repository, or a post to its channel.
  pub data Proposes : Effect → Type 0 where
    opens :
        (branch issue requester summary : String)
        → Proposes (opened task.repo branch issue requester summary)
    posts : (note : Note) → Proposes (posted task.channel note)

  -- Nothing, for who is not allowed; else a token for the task's repository, and then no sandbox, or
  -- one with the task's spec, in which the script runs, and which is destroyed at the end.
  pub data Effects : List Effect → Type 0 where
    nothing : can_trigger o.allow task.requester task.repo ≡ false → Effects []
    token_only :
        can_trigger o.allow task.requester task.repo ≡ true → Effects (minted task.repo ∷ [])
    no_sandbox :
        (token : String)
        → can_trigger o.allow task.requester task.repo ≡ true
        → Effects (minted task.repo ∷ create_failed (spec_of branch_name o task token) ∷ [])
    sandboxed :
        (token id : String) (rest : List Effect)
        → can_trigger o.allow task.requester task.repo ≡ true
        → All Proposes rest
        → Effects (
            minted task.repo
            ∷ created (spec_of branch_name o task token) id
            ∷ ran id
            ∷ (rest ++ destroyed id ∷ []))

  report-Proposes : (note : Note) → All Proposes (report branch_name o task note)
  report-Proposes note =
      if_elim (All Proposes) (o.notifies && not (task.channel == ""))
        (posted task.channel note ∷ []) [] (λ _. (posts note, tt)) (λ _. tt)

  with_pr-Proposes :
      (id summary : String) (r : Result String String)
      → All Proposes (with_pr branch_name o task id summary r).effects
  with_pr-Proposes id summary (err e) = (opens _ _ _ _, tt)
  with_pr-Proposes id summary (ok url) = (opens _ _ _ _, report-Proposes _)

  after_run-Proposes :
      (id : String) (r : Result String String)
      → All Proposes (after_run branch_name o task id r).effects
  after_run-Proposes id (err e) = report-Proposes _
  after_run-Proposes id (ok summary) = with_pr-Proposes id summary _

  with_sandbox-Effects :
      (token : String) (r : Result String String)
      → can_trigger o.allow task.requester task.repo ≡ true
      → Effects (with_sandbox branch_name o task token r).effects
  with_sandbox-Effects token (err e) h = no_sandbox token h
  with_sandbox-Effects token (ok id) h =
      sandboxed token id _ h (after_run-Proposes id (o.outside.exec id))

  with_token-Effects :
      (r : Result String String)
      → can_trigger o.allow task.requester task.repo ≡ true
      → Effects (with_token branch_name o task r).effects
  with_token-Effects (err e) h = token_only h
  with_token-Effects (ok token) h = with_sandbox-Effects token _ h

  -- A run has no effect unless its requester and its repository are allowed. Then it asks for a token
  -- of that repository; if a sandbox is created, it has the allowed hosts and an environment of the
  -- token and the task's data only, the last effect of the run destroys it, whatever failed before,
  -- and what happens between is the script and pull requests on that repository and posts to the
  -- task's channel.
  pub run-Effects : Effects (run branch_name o task).effects
  unfolding run
  run-Effects =
      if_elim (λ (out : Outcome). Effects out.effects)
        (can_trigger o.allow task.requester task.repo)
        (with_token branch_name o task (o.outside.mint task.repo))
        (outcome "" "" "" "" (some unauthorized) [])
        (λ h. with_token-Effects (o.outside.mint task.repo) h) (λ h. nothing h)
