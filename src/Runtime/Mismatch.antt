-- ===== src/Runtime/Mismatch.antt =====
-- handleApprove: a decision for another approval.
use sl_open_bark.Common.{suc, String, false, none, some, string_eq, ◌≡◌, refl, arith}
use sl_open_bark.Runtime.{
  TaskState, TaskStatus, running, awaiting_approval, finished, failed, Decision, System, Steps,
  resume, unpaused, decides, stay, further, delivers, resumes, ignored,
}

-- The engine waits for an approval that no poller is shown: the task looks like one that runs.
abbrev pub Hidden : System → String → Type 0
Hidden s id = (s.waiting ≡ some id) × (s.state.status ≡ running) × (s.state.pending ≡ none)

unpaused-awaiting :
    (ts : TaskState) (st : TaskStatus)
    → st ≡ awaiting_approval
    → ((unpaused ts st).status ≡ running) × ((unpaused ts st).pending ≡ none)
unpaused-awaiting ts running e = absurd (ground arith)
unpaused-awaiting ts awaiting_approval e = (refl, refl)
unpaused-awaiting ts finished e = absurd (ground arith)
unpaused-awaiting ts failed e = absurd (ground arith)

-- While the engine waits for an approval and a poller is shown it, a request with a decision for
-- another approval leads to a state where the engine still waits and no approval is shown.
pub mismatch-Hidden :
    (s : System) (d : Decision) (id : String)
    → s.waiting ≡ some id
    → s.state.status ≡ awaiting_approval
    → s.decisions ≡ none
    → decides d id ≡ false
    → (t : System) × Steps s t × Hidden t id
unfolding resume
mismatch-Hidden s d id w a free other =
    let s₁ : System = record s { decisions = some d; resuming = suc s.resuming } in
    let s₂ : System = record s₁ { decisions = none } in
    let s₃ : System = record s₂ { state = resume s.state; resuming = s.resuming } in
    let (runs, blank) = unpaused-awaiting s.state s.state.status a in
    (
      s₃,
      further s₂ s₃
          (further s₁ s₂ (further s s₁ stay (delivers d free)) (ignored d id refl w other))
          (resumes s.resuming refl),
      (w, runs, blank),
    )
