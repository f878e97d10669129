-- ===== src/Runtime/Service.antt =====
-- internal/server/server.go: the runtime over HTTP. A request has the route that the mux finds, with
-- its body as encoding/json decodes it, and its Authorization header. The tasks run in the
-- background: what happens to one of them next is a `Step`.
pub mod Reached
pub mod Served
use sl_open_bark.Common.{
  ℕ, suc, String, ◌<>◌, Bool, true, false, not, ◌||◌, Option, none, some, if◌then◌else◌, ◌==◌,
  string_eq, ◌≡◌,
}
use sl_open_bark.Common.Dict.{Dict, lookup, insert}
use sl_open_bark.Common.Result.{Result, ok, err}
use sl_open_bark.Runtime.{Decision, Snapshot, System, Step, TaskResult, start, snapshot}
use sl_open_bark.Runtime.Spec.{Files, ModelConfig, TaskRequest, RunSpec, SpecError, build_spec}

pub data Route : Type 0 where
  healthz : Route
  submit_route : Option TaskRequest → Route
  get_route : String → Route
  approve_route : String → Option Decision → Route
  no_route : Route

pub record Request : Type 0 where
  pub route : Route
  pub authorization : String

-- `waits` is a decision that waits for room in the channel of decisions.
pub data Response : Type 0 where
  healthy : Response
  not_routed : Response
  accepted : String → Response
  shown : Snapshot → Response
  resolved : Response
  waits : Response
  refused : SpecError → Response
  problem : ℕ → String → Response

pub record Server : Type 0 where
  pub token : String
  pub models : ModelConfig
  pub recipes_dir : String

-- The manager's table of tasks.
abbrev pub Tasks : Type 0
Tasks = Dict System

-- What the environment decides for a request: the id that is drawn for a new task, and whether a
-- decision that could be sent to a task that is over is told that it is over.
pub record Draw : Type 0 where
  pub id : String
  pub sees_end : Bool

module _ (F : Files) (server : Server) where
  abbrev submitted_task : String → Tasks → Result SpecError RunSpec → Response × Tasks
  submitted_task id tasks (err e) = (refused e, tasks)
  submitted_task id tasks (ok spec) = (accepted id, insert id start tasks)

  unfoldable pub handle_submit : Draw → Option TaskRequest → Tasks → Response × Tasks
  handle_submit draw none tasks = (problem 400 "bad request", tasks)
  handle_submit draw (some req) tasks =
      submitted_task draw.id tasks (build_spec F server.models server.recipes_dir req)

  abbrev shown_task : Option System → Response
  shown_task none = problem 404 "no such task"
  shown_task (some s) = shown (snapshot s.state)

  unfoldable pub handle_get : String → Tasks → Response × Tasks
  handle_get id tasks = (shown_task (lookup id tasks), tasks)

  abbrev delivered : String → Decision → System → Tasks → Response × Tasks
  delivered id d s tasks =
      (resolved, insert id (record s { decisions = some d; resuming = suc s.resuming }) tasks)

  abbrev over : Response × Tasks → Option (Result String TaskResult) → Tasks → Response × Tasks
  over running none tasks = running
  over running (some r) tasks = (problem 409 "runtime: task already finished", tasks)

  -- `ResolveApproval`: to send the decision, or to see that the task is over
  abbrev resolve : Bool → String → Decision → System → Option Decision → Tasks → Response × Tasks
  resolve sees_end id d s (some before) tasks = over (waits, tasks) s.returned tasks
  resolve true id d s none tasks = over (delivered id d s tasks) s.returned tasks
  resolve false id d s none tasks = delivered id d s tasks

  abbrev approve_task : Draw → String → Option System → Option Decision → Tasks → Response × Tasks
  approve_task draw id none d tasks = (problem 404 "no such task", tasks)
  approve_task draw id (some s) none tasks = (problem 400 "bad request", tasks)
  approve_task draw id (some s) (some d) tasks = resolve draw.sees_end id d s s.decisions tasks

  -- The handler up to the delivery; that it then resumes the state is the task's step `resumes`.
  unfoldable pub handle_approve : Draw → String → Option Decision → Tasks → Response × Tasks
  handle_approve draw id d tasks = approve_task draw id (lookup id tasks) d tasks

  unfoldable pub auth : Request → (Tasks → Response × Tasks) → Tasks → Response × Tasks
  auth r next tasks =
      if server.token == "" || not (r.authorization == ("Bearer " <> server.token))
      then (problem 401 "unauthorized", tasks)
      else next tasks

  abbrev routed : Draw → Request → Route → Tasks → Response × Tasks
  routed draw r healthz tasks = (healthy, tasks)
  routed draw r no_route tasks = (not_routed, tasks)
  routed draw r (submit_route req) tasks = auth r (handle_submit draw req) tasks
  routed draw r (get_route id) tasks = auth r (handle_get id) tasks
  routed draw r (approve_route id d) tasks = auth r (handle_approve draw id d) tasks

  unfoldable pub handler : Draw → Request → Tasks → Response × Tasks
  unfolding auth handle_submit handle_get handle_approve
  handler draw r tasks = routed draw r r.route tasks

  -- The service: a request, or a step of one of its tasks.
  pub data Serve (tasks : Tasks) : Tasks → Type 0 where
    request : (draw : Draw) (r : Request) → Serve tasks (handler draw r tasks).1
    background :
        (id : String) (s t : System)
        → lookup id tasks ≡ some s
        → Step s t
        → Serve tasks (insert id t tasks)

  pub data Serves (tasks : Tasks) : Tasks → Type 0 where
    idle : Serves tasks tasks
    later : (us vs : Tasks) → Serves tasks us → Serve us vs → Serves tasks vs
