-- ===== src/Runtime.antt =====
-- runtime: a task of the agent runtime (agentruntime.go, runtime.go's `run`) and the state that the
-- HTTP service keeps of it (internal/server/server.go). The engine, the goroutine that drains the
-- events, and the requests that post decisions interleave: each is a step of `Step`.
pub mod Coherent
pub mod Mismatch
pub mod Service
pub mod Spec
pub mod Cli
use sl_open_bark.Common.{
  ℕ, zero, suc, String, Bool, true, false, ◌||◌, List, [], ◌∷◌, ◌++◌, Option, none, some,
  if◌then◌else◌, ◌==◌, string_eq, ◌≡◌, ◌<◌,
}
use sl_open_bark.Common.Lists.{length}
use sl_open_bark.Common.Result.{Result, ok, err}

pub data EventKind : Type 0 where
  status tool_call approval_required output error done : EventKind

pub record Event : Type 0 where
  pub kind : EventKind
  pub text : String
  pub tool : String
  pub approval_id : String

pub record TaskResult : Type 0 where
  pub output : String
  pub audit_ref : String

pub record Decision : Type 0 where
  pub approval_id : String
  pub granted : Bool
  pub decided_by : String

pub record PendingApproval : Type 0 where
  pub tool : String
  pub approval_id : String

pub data TaskStatus : Type 0 where
  running awaiting_approval finished failed : TaskStatus

pub record TaskState : Type 0 where
  pub events : List Event
  pub pending : Option PendingApproval
  pub status : TaskStatus
  pub result : Option TaskResult
  pub err_msg : String

abbrev pub submitted : TaskState
submitted = record { events = []; pending = none; status = running; result = none; err_msg = "" }

abbrev pub seen : TaskState → Event → EventKind → TaskState
seen ts e approval_required = record ts {
  status = awaiting_approval;
  pending = some (record { tool = e.tool; approval_id = e.approval_id });
}
seen ts e error = record ts { err_msg = e.text }
seen ts e status = ts
seen ts e tool_call = ts
seen ts e output = ts
seen ts e done = ts

-- The body of `drain`'s loop.
unfoldable pub observe : Event → TaskState → TaskState
observe e ts = seen (record ts { events = ts.events ++ e ∷ [] }) e e.kind

-- The end of `drain`, with what `Result` returns: a result or an error. (An output beside an error is
-- shown by no snapshot.)
pub settle : Result String TaskResult → TaskState → TaskState
settle (ok r) ts = record ts { result = some r; status = finished; pending = none }
settle (err e) ts = record ts {
  status = failed;
  err_msg = if ts.err_msg == "" then e else ts.err_msg;
  pending = none;
}

abbrev unpaused : TaskState → TaskStatus → TaskState
unpaused ts awaiting_approval = record ts { status = running; pending = none }
unpaused ts running = ts
unpaused ts finished = ts
unpaused ts failed = ts

-- What `handleApprove` does to the state once the decision is delivered.
pub resume : TaskState → TaskState
resume ts = unpaused ts ts.status

-- `snapshot`'s result
abbrev shown : TaskStatus → Option TaskResult → Option TaskResult
shown finished r = r
shown running r = none
shown awaiting_approval r = none
shown failed r = none

pub record Snapshot : Type 0 where
  pub status : TaskStatus
  pub events : List Event
  pub pending : Option PendingApproval
  pub result : Option TaskResult
  pub error : String

unfoldable pub snapshot : TaskState → Snapshot
snapshot ts = record {
  status = ts.status;
  events = ts.events;
  pending = ts.pending;
  result = shown ts.status ts.result;
  error = ts.err_msg;
}

-- Whether the engine that waits for `approval_id` takes the decision, or keeps waiting.
abbrev pub decides : Decision → String → Bool
decides d approval_id = d.approval_id == "" || d.approval_id == approval_id

-- A task with what runs beside it: the channels of events and decisions, the approval that the
-- engine waits for, what it returned, the requests that have delivered a decision and have yet to
-- resume the state, and whether `drain` is over.
pub record System : Type 0 where
  pub state : TaskState
  pub queue : List Event
  pub decisions : Option Decision
  pub waiting : Option String
  pub returned : Option (Result String TaskResult)
  pub resuming : ℕ
  pub drained : Bool

abbrev pub start : System
start = record {
  state = submitted;
  queue = [];
  decisions = none;
  waiting = none;
  returned = none;
  resuming = 0;
  drained = false;
}

-- The room of the channel of events.
abbrev pub room : ℕ
room = 32

abbrev pub approval_event : String → String → Event
approval_event tool id = record {
  kind = approval_required;
  text = "";
  tool = tool;
  approval_id = id;
}

abbrev pub plain_event : EventKind → String → Event
plain_event kind text = record { kind = kind; text = text; tool = ""; approval_id = "" }

-- The events that `run` sends at the end. `returns` appends them at once: that a send may wait for room
-- changes only when they are read.
abbrev pub last_events : Result String TaskResult → List Event
last_events (ok r) = plain_event output r.output ∷ plain_event done "" ∷ []
last_events (err e) = plain_event error e ∷ plain_event done "" ∷ []

pub data Step (s : System) : System → Type 0 where
  emits :
      (e : Event)
      → s.waiting ≡ none
      → s.returned ≡ none
      → length s.queue < room
      → Step s (record s { queue = s.queue ++ e ∷ [] })
  asks :
      (tool id : String)
      → s.waiting ≡ none
      → s.returned ≡ none
      → length s.queue < room
      → Step s (record s { queue = s.queue ++ approval_event tool id ∷ []; waiting = some id })
  delivers :
      (d : Decision)
      → s.decisions ≡ none
      → Step s (record s { decisions = some d; resuming = suc s.resuming })
  resumes :
      (n : ℕ) → s.resuming ≡ suc n → Step s (record s { state = resume s.state; resuming = n })
  decided :
      (d : Decision) (id : String)
      → s.decisions ≡ some d
      → s.waiting ≡ some id
      → decides d id ≡ true
      → Step s (record s { decisions = none; waiting = none })
  ignored :
      (d : Decision) (id : String)
      → s.decisions ≡ some d
      → s.waiting ≡ some id
      → decides d id ≡ false
      → Step s (record s { decisions = none })
  returns :
      (r : Result String TaskResult)
      → s.waiting ≡ none
      → s.returned ≡ none
      → Step s (record s { queue = s.queue ++ last_events r; returned = some r })
  drains :
      (e : Event) (rest : List Event)
      → s.queue ≡ e ∷ rest
      → s.drained ≡ false
      → Step s (record s { queue = rest; state = observe e s.state })
  ends :
      (r : Result String TaskResult)
      → s.queue ≡ []
      → s.returned ≡ some r
      → s.drained ≡ false
      → Step s (record s { state = settle r s.state; drained = true })

pub data Steps (s : System) : System → Type 0 where
  stay : Steps s s
  further : (t u : System) → Steps s t → Step t u → Steps s u
