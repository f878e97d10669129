-- ===== src/Runtime/Coherent.antt =====
-- internal/server/server.go: what a poller sees of a task, in every interleaving.
use mathlib.Core.Path.{subst}
use sl_open_bark.Common.{
  String, Bool, true, false, [], ◌∷◌, ◌++◌, Option, none, some, string_eq, ◌≡◌, refl, arith,
}
use sl_open_bark.Common.Result.{Result, ok, err}
use sl_open_bark.Runtime.{
  Event, EventKind, TaskResult, TaskState, TaskStatus, running, awaiting_approval, finished, failed,
  PendingApproval, System, Step, Steps, start, observe, settle, resume, seen, unpaused, status,
  tool_call, approval_required, output, error, done, stay, further, emits, asks, delivers, resumes,
  decided, ignored, returns, drains, ends,
}

-- What a status says of the pending approval, the result, and whether `drain` is over.
abbrev pub Coherent : TaskStatus → Option PendingApproval → Option TaskResult → Bool → Type 0
Coherent running pending result drained = (pending ≡ none) × (result ≡ none) × (drained ≡ false)
Coherent awaiting_approval pending result drained =
    ((p : PendingApproval) × (pending ≡ some p)) × (result ≡ none) × (drained ≡ false)
Coherent finished pending result drained =
    (pending ≡ none) × ((r : TaskResult) × (result ≡ some r)) × (drained ≡ true)
Coherent failed pending result drained = (pending ≡ none) × (drained ≡ true)

abbrev pub Shown : TaskState → Bool → Type 0
Shown ts drained = Coherent ts.status ts.pending ts.result drained

unfinished :
    (st : TaskStatus) (pending : Option PendingApproval) (result : Option TaskResult)
    → Coherent st pending result false
    → result ≡ none
unfinished running pending result (p, r, d) = r
unfinished awaiting_approval pending result (p, r, d) = r
unfinished finished pending result (p, r, d) = absurd (ground arith)
unfinished failed pending result (p, d) = absurd (ground arith)

seen-Shown :
    (e : Event) (kind : EventKind) (ts : TaskState) → Shown ts false → Shown (seen ts e kind) false
seen-Shown e approval_required ts h = ((_, refl), unfinished ts.status ts.pending ts.result h, refl)
seen-Shown e error ts h = h
seen-Shown e status ts h = h
seen-Shown e tool_call ts h = h
seen-Shown e output ts h = h
seen-Shown e done ts h = h

settle-Shown : (r : Result String TaskResult) (ts : TaskState) → Shown (settle r ts) true
unfolding settle
settle-Shown (ok r) ts = (refl, (r, refl), refl)
settle-Shown (err e) ts = (refl, refl)

unpaused-Shown :
    (ts : TaskState) (status : TaskStatus) (drained : Bool)
    → ts.status ≡ status
    → Coherent status ts.pending ts.result drained
    → Shown (unpaused ts status) drained
unpaused-Shown ts running drained e h = rw e h
unpaused-Shown ts awaiting_approval drained e (p, r, d) = (refl, r, d)
unpaused-Shown ts finished drained e h = rw e h
unpaused-Shown ts failed drained e h = rw e h

Step-Shown : (s t : System) → Step s t → Shown s.state s.drained → Shown t.state t.drained
unfolding observe resume
Step-Shown s t (emits e w r l) h = h
Step-Shown s t (asks tool id w r l) h = h
Step-Shown s t (delivers d f) h = h
Step-Shown s t (resumes n k) h = unpaused-Shown s.state s.state.status s.drained refl h
Step-Shown s t (decided d id f w y) h = h
Step-Shown s t (ignored d id f w y) h = h
Step-Shown s t (returns r w n) h = h
Step-Shown s t (drains e rest q d) h = rw d (
    seen-Shown e e.kind (record s.state { events = s.state.events ++ e ∷ [] })
      (subst (Shown s.state) d h))
Step-Shown s t (ends r q f d) h = settle-Shown r s.state

-- In every state that steps lead to from the start of a task: a pending approval is shown exactly
-- while the status is that of a task that awaits one, a finished task has a result, a task that is
-- neither finished nor failed has none, and a task is finished or failed exactly if `drain` is over.
pub Steps-Shown : (t : System) → Steps start t → Shown t.state t.drained
Steps-Shown t (stay) = (refl, refl, refl)
Steps-Shown t (further u v before step) = Step-Shown u t step (Steps-Shown u before)
