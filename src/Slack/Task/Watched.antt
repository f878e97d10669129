-- ===== src/Slack/Task/Watched.antt =====
-- handler.go: a task's polls, with the answers that the runtime gives to them.
use sl_open_bark.Common.{
  ℕ, ◌+◌, ◌≤◌, String, List, [], ◌∷◌, ◌++◌, Option, none, some, string_eq, contains, if◌then◌else◌,
}
use sl_open_bark.Common.Result.{Result, ok, err}
use sl_open_bark.Slack.Client.{Pending, Snapshot}
use sl_open_bark.Slack.Task.{World, Message}

-- The clock: a sleep lasts at least as long as it is told to, and no call turns the clock back.
pub record Clocked (W : World) : Type 0 where
  pub slept : (d : ℕ) (w : W.State) → W.now w + d ≤ W.now (W.sleep d w)
  pub got : (id : String) (w : W.State) → W.now w ≤ W.now (W.get id w).1
  pub sent : (m : Message) (w : W.State) → W.now w ≤ W.now (W.post m w).1

abbrev pub Answers : Type 0
Answers = List (Result String Snapshot)

-- The world, with every answer that the runtime has given to a poll.
abbrev pub watched : World → World
watched W = record {
  State = W.State × Answers;
  submit = λ b s. let (r, w) = W.submit b s.0 in (r, (w, s.1));
  get = λ id s. let (r, w) = W.get id s.0 in (r, (w, s.1 ++ r ∷ []));
  approve = λ t id g by s. let (r, w) = W.approve t id g by s.0 in (r, (w, s.1));
  post = λ m s. let (r, w) = W.post m s.0 in (r, (w, s.1));
  now = λ s. W.now s.0;
  sleep = λ d s. (W.sleep d s.0, s.1);
}

pub watched-Clocked : (W : World) → Clocked W → Clocked (watched W)
watched-Clocked W clock = record {
  slept = λ d s. clock.slept d s.0;
  got = λ id s. clock.got id s.0;
  sent = λ m s. clock.sent m s.0;
}

abbrev pub with_pending : Option Pending → List Pending → List Pending
with_pending none ps = ps
with_pending (some p) ps = p ∷ ps

abbrev pub with_answer : Result String Snapshot → List Pending → List Pending
with_answer (err e) ps = ps
with_answer (ok snap) ps = with_pending snap.pending ps

-- The approvals that the answers name, in their order.
abbrev pub pendings : Answers → List Pending
pendings [] = []
pendings (r ∷ rs) = with_answer r (pendings rs)

-- Of approvals with one id, the first, and none whose id is in `shown`.
abbrev pub distinct : List String → List Pending → List Pending
distinct shown [] = []
distinct shown (p ∷ ps) =
    let seen_before = distinct shown ps in
    let first = p ∷ distinct (p.approval_id ∷ shown) ps in
    if contains shown p.approval_id then seen_before else first
