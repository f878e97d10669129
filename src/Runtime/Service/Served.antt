-- ===== src/Runtime/Service/Served.antt =====
-- internal/server/server.go: what a poller is answered.
use mathlib.Core.Path.{subst}
use sl_open_bark.Common.{
  String, ◌<>◌, Bool, true, false, [], Option, none, some, ◌≡◌, ◌≢◌, refl, arith,
}
use sl_open_bark.Common.Dict.{lookup}
use sl_open_bark.Common.Result.{Result, ok, err}
use sl_open_bark.Runtime.{
  Decision, PendingApproval, TaskResult, TaskState, TaskStatus, running, awaiting_approval,
  finished, failed, Snapshot, System, Steps, start, snapshot,
}
use sl_open_bark.Runtime.Coherent.{Coherent, Steps-Shown}
use sl_open_bark.Runtime.Spec.{Files, RunSpec, SpecError, TaskRequest}
use sl_open_bark.Runtime.Service.{
  Server, Tasks, Draw, Request, Response, Route, healthz, no_route, submit_route, get_route,
  approve_route, shown, waits, submitted_task, handle_submit, shown_task, handle_get, delivered,
  over, resolve, approve_task, handle_approve, auth, routed, handler, Serves,
}
use sl_open_bark.Runtime.Service.Reached.{Serves-Reached}

-- What a snapshot shows agrees with its own status: a pending approval exactly if this is that an
-- approval is awaited, and a result exactly if it is that the task is finished.
abbrev pub Presented : TaskStatus → Snapshot → Type 0
Presented running snap = (snap.pending ≡ none) × (snap.result ≡ none)
Presented awaiting_approval snap =
    ((p : PendingApproval) × (snap.pending ≡ some p)) × (snap.result ≡ none)
Presented finished snap = (snap.pending ≡ none) × ((r : TaskResult) × (snap.result ≡ some r))
Presented failed snap = (snap.pending ≡ none) × (snap.result ≡ none)

snapshot-Presented :
    (ts : TaskState) (drained : Bool) (status : TaskStatus)
    → ts.status ≡ status
    → Coherent status ts.pending ts.result drained
    → Presented status (snapshot ts)
unfolding snapshot
snapshot-Presented ts drained running e h = (h.0, rw e refl)
snapshot-Presented ts drained awaiting_approval e h = (h.0, rw e refl)
snapshot-Presented ts drained finished e h = (h.0, rw e h.1)
snapshot-Presented ts drained failed e h = (h.0, rw e refl)

Steps-Presented :
    (s : System) → Steps start s → Presented (snapshot s.state).status (snapshot s.state)
unfolding snapshot
Steps-Presented s steps =
    snapshot-Presented s.state s.drained s.state.status refl (Steps-Shown s steps)

module _ (F : Files) (server : Server) where
  auth-shown :
      (r : Request) (next : Tasks → Response × Tasks) (tasks : Tasks) (snap : Snapshot)
      → (auth F server r next tasks).0 ≡ shown snap
      → (server.token ≢ "")
        × (r.authorization ≡ ("Bearer " <> server.token))
        × ((next tasks).0 ≡ shown snap)
  unfolding auth
  auth-shown r next tasks snap e = ground arith

  task-shown :
      (id : String) (tasks : Tasks) (r : Result SpecError RunSpec) (snap : Snapshot)
      → (submitted_task F server id tasks r).0 ≢ shown snap
  task-shown id tasks (err x) snap e = cc
  task-shown id tasks (ok spec) snap e = cc

  submit-shown :
      (draw : Draw) (req : Option TaskRequest) (tasks : Tasks) (snap : Snapshot)
      → (handle_submit F server draw req tasks).0 ≢ shown snap
  unfolding handle_submit
  submit-shown draw none tasks snap e = cc
  submit-shown draw (some req) tasks snap e = task-shown draw.id tasks _ snap e

  over-shown :
      (out : Response × Tasks) (r : Option (Result String TaskResult)) (tasks : Tasks)
      (snap : Snapshot)
      → out.0 ≢ shown snap
      → (over F server out r tasks).0 ≢ shown snap
  over-shown out none tasks snap n = n
  over-shown out (some r) tasks snap n = λ e. cc

  resolve-shown :
      (sees_end : Bool) (id : String) (d : Decision) (s : System) (o : Option Decision)
      (tasks : Tasks) (snap : Snapshot)
      → (resolve F server sees_end id d s o tasks).0 ≢ shown snap
  resolve-shown sees_end id d s (some before) tasks snap =
      over-shown (waits, tasks) s.returned tasks snap (λ e. cc)
  resolve-shown true id d s none tasks snap =
      over-shown (delivered F server id d s tasks) s.returned tasks snap (λ e. cc)
  resolve-shown false id d s none tasks snap = λ e. cc

  approve-shown :
      (draw : Draw) (id : String) (o : Option System) (d : Option Decision) (tasks : Tasks)
      (snap : Snapshot)
      → (approve_task F server draw id o d tasks).0 ≢ shown snap
  approve-shown draw id none d tasks snap e = cc
  approve-shown draw id (some s) none tasks snap e = cc
  approve-shown draw id (some s) (some d) tasks snap e =
      resolve-shown draw.sees_end id d s s.decisions tasks snap e

  get-shown :
      (o : Option System) (snap : Snapshot)
      → shown_task F server o ≡ shown snap
      → (s : System) × (o ≡ some s) × (snapshot s.state ≡ snap)
  get-shown none snap e = cc
  get-shown (some s) snap e = (s, refl, cc)

  routed-shown :
      (draw : Draw) (r : Request) (route : Route) (tasks : Tasks) (snap : Snapshot)
      → (routed F server draw r route tasks).0 ≡ shown snap
      → (server.token ≢ "")
        × (r.authorization ≡ ("Bearer " <> server.token))
        × ((id : String) × (s : System) × (lookup id tasks ≡ some s) × (snapshot s.state ≡ snap))
  unfolding handle_get handle_approve
  routed-shown draw r healthz tasks snap e = cc
  routed-shown draw r no_route tasks snap e = cc
  routed-shown draw r (submit_route req) tasks snap e =
      let (t, b, k) = auth-shown r (handle_submit F server draw req) tasks snap e in
      absurd (submit-shown draw req tasks snap k)
  routed-shown draw r (get_route id) tasks snap e =
      let (t, b, k) = auth-shown r (handle_get F server id) tasks snap e in
      let (s, found, same) = get-shown (lookup id tasks) snap k in (t, b, (id, s, found, same))
  routed-shown draw r (approve_route id d) tasks snap e =
      let (t, b, k) = auth-shown r (handle_approve F server draw id d) tasks snap e in
      absurd (approve-shown draw id (lookup id tasks) d tasks snap k)

  -- Whatever requests have come and whatever the tasks have done meanwhile: a request that is answered
  -- with a snapshot carries the service's token, which is not blank, and the snapshot agrees with
  -- itself: it shows a pending approval exactly if the status in it is that one is awaited, and a
  -- result exactly if the status in it is that the task is finished.
  pub handler-Presented :
      (tasks : Tasks) (draw : Draw) (r : Request) (snap : Snapshot)
      → Serves F server [] tasks
      → (handler F server draw r tasks).0 ≡ shown snap
      → (server.token ≢ "")
        × (r.authorization ≡ ("Bearer " <> server.token))
        × Presented snap.status snap
  unfolding handler
  handler-Presented tasks draw r snap run e =
      let (t, b, (id, s, found, same)) = routed-shown draw r r.route tasks snap e in
      (
        t,
        b,
        subst (λ (x : Snapshot). Presented x.status x) same
            (Steps-Presented s (Serves-Reached F server tasks run id s found)),
      )
