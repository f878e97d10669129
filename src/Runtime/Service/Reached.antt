-- ===== src/Runtime/Service/Reached.antt =====
-- internal/server/server.go: every task of the table is in a state that its steps lead to.
use mathlib.Core.Path.{subst}
use sl_open_bark.Common.{
  String, ◌<>◌, Bool, true, false, not, ◌||◌, [], Option, none, some, if◌then◌else◌, ◌==◌,
  string_eq, ◌≡◌, ◌⊎◌, inl, inr, refl, sym, ◌∙◌, if_elim,
}
use sl_open_bark.Common.Dict.{lookup, insert, lookup-insert}
use sl_open_bark.Common.Result.{Result, ok, err}
use sl_open_bark.Runtime.{Decision, TaskResult, System, Steps, delivers, stay, further, start}
use sl_open_bark.Runtime.Spec.{Files, RunSpec, SpecError, TaskRequest}
use sl_open_bark.Runtime.Service.{
  Server, Tasks, Draw, Request, Response, Route, healthz, no_route, submit_route, get_route,
  approve_route, waits, problem, submitted_task, handle_submit, handle_get, delivered, over,
  resolve, approve_task, handle_approve, auth, routed, handler, Serve, Serves, request, background,
  idle, later,
}

-- Every task in the table is in a state that steps lead to from the start.
abbrev pub Reached : Tasks → Type 0
Reached tasks = (id : String) (s : System) → lookup id tasks ≡ some s → Steps start s

found_or :
    (b : Bool) (t s : System) (o : Option System)
    → (if b then some t else o) ≡ some s
    → (t ≡ s) ⊎ (o ≡ some s)
found_or true t s o e = inl cc
found_or false t s o e = inr e

insert-Reached :
    (id : String) (t : System) (tasks : Tasks)
    → Reached tasks
    → Steps start t
    → Reached (insert id t tasks)
insert-Reached id t tasks h k j s e =
    elim (found_or (j == id) t s (lookup j tasks) (sym (lookup-insert j id t tasks) ∙ e)) [
      | inl same ↦ subst (Steps start) same k
      | inr before ↦ h j s before
    ]

none-Reached : Reached []
unfolding lookup
none-Reached id s e = cc

module _ (F : Files) (server : Server) where
  delivered-Reached :
      (id : String) (d : Decision) (s : System) (tasks : Tasks)
      → s.decisions ≡ none
      → Steps start s
      → Reached tasks
      → Reached (delivered F server id d s tasks).1
  delivered-Reached id d s tasks free reached h =
      insert-Reached id _ tasks h (further s _ reached (delivers d free))

  over-Reached :
      (out : Response × Tasks) (r : Option (Result String TaskResult)) (tasks : Tasks)
      → Reached out.1
      → Reached tasks
      → Reached (over F server out r tasks).1
  over-Reached out none tasks h k = h
  over-Reached out (some r) tasks h k = k

  resolve-Reached :
      (sees_end : Bool) (id : String) (d : Decision) (s : System) (o : Option Decision)
      (tasks : Tasks)
      → s.decisions ≡ o
      → Steps start s
      → Reached tasks
      → Reached (resolve F server sees_end id d s o tasks).1
  resolve-Reached sees_end id d s (some before) tasks e reached h =
      over-Reached (waits, tasks) s.returned tasks h h
  resolve-Reached true id d s none tasks e reached h =
      over-Reached (delivered F server id d s tasks) s.returned tasks
        (delivered-Reached id d s tasks e reached h) h
  resolve-Reached false id d s none tasks e reached h = delivered-Reached id d s tasks e reached h

  approve_task-Reached :
      (draw : Draw) (id : String) (o : Option System) (d : Option Decision) (tasks : Tasks)
      → lookup id tasks ≡ o
      → Reached tasks
      → Reached (approve_task F server draw id o d tasks).1
  approve_task-Reached draw id none d tasks e h = h
  approve_task-Reached draw id (some s) none tasks e h = h
  approve_task-Reached draw id (some s) (some d) tasks e h =
      resolve-Reached draw.sees_end id d s s.decisions tasks refl (h id s e) h

  submitted_task-Reached :
      (id : String) (tasks : Tasks) (r : Result SpecError RunSpec)
      → Reached tasks
      → Reached (submitted_task F server id tasks r).1
  submitted_task-Reached id tasks (err e) h = h
  submitted_task-Reached id tasks (ok spec) h = insert-Reached id start tasks h stay

  handle_submit-Reached :
      (draw : Draw) (req : Option TaskRequest) (tasks : Tasks)
      → Reached tasks
      → Reached (handle_submit F server draw req tasks).1
  unfolding handle_submit
  handle_submit-Reached draw none tasks h = h
  handle_submit-Reached draw (some req) tasks h = submitted_task-Reached draw.id tasks _ h

  auth-Reached :
      (r : Request) (next : Tasks → Response × Tasks) (tasks : Tasks)
      → Reached tasks
      → Reached (next tasks).1
      → Reached (auth F server r next tasks).1
  unfolding auth
  auth-Reached r next tasks h k =
      if_elim (λ (out : Response × Tasks). Reached out.1)
        (server.token == "" || not (r.authorization == ("Bearer " <> server.token)))
        (problem 401 "unauthorized", tasks) (next tasks) (λ _. h) (λ _. k)

  routed-Reached :
      (draw : Draw) (r : Request) (route : Route) (tasks : Tasks)
      → Reached tasks
      → Reached (routed F server draw r route tasks).1
  unfolding handle_get handle_approve
  routed-Reached draw r healthz tasks h = h
  routed-Reached draw r no_route tasks h = h
  routed-Reached draw r (submit_route req) tasks h =
      auth-Reached r (handle_submit F server draw req) tasks h
        (handle_submit-Reached draw req tasks h)
  routed-Reached draw r (get_route id) tasks h = auth-Reached r (handle_get F server id) tasks h h
  routed-Reached draw r (approve_route id d) tasks h =
      auth-Reached r (handle_approve F server draw id d) tasks h
        (approve_task-Reached draw id (lookup id tasks) d tasks refl h)

  Serve-Reached : (us vs : Tasks) → Serve F server us vs → Reached us → Reached vs
  unfolding handler
  Serve-Reached us vs (request draw r) h = routed-Reached draw r r.route us h
  Serve-Reached us vs (background id s t e step) h =
      insert-Reached id t us h (further s t (h id s e) step)

  pub Serves-Reached : (tasks : Tasks) → Serves F server [] tasks → Reached tasks
  Serves-Reached tasks idle = none-Reached
  Serves-Reached tasks (later us vs before step) =
      Serve-Reached us vs step (Serves-Reached us before)
