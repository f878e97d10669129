-- ===== src/Slack/Task.antt =====
-- handler.go: a task, from the request to its result in the thread. The runtime, the poster and the
-- clock are parameters, over one state. Times are milliseconds.
pub mod Polled
pub mod Watched
use sl_open_bark.Common.{
  ℕ, zero, suc, ◌+◌, String, Bool, false, not, List, [], ◌∷◌, ◌++◌, Option, none, some,
  if◌then◌else◌, ◌==◌, string_eq, contains, ltb,
}
use sl_open_bark.Common.Result.{Result, ok, err}
use sl_open_bark.Common.Text.{trim_space}
use sl_open_bark.Assembly.{Bytes}
use sl_open_bark.Slack.Blocks.{Block, status_blocks, result_blocks, error_blocks, approval_blocks}
use sl_open_bark.Slack.Client.{SubmitBody, Pending, TaskResult, Snapshot}
use sl_open_bark.Slack.Handler.{Handler, Launch, last_error}

pub record Message : Type 0 where
  pub channel : String
  pub thread_ts : String
  pub fallback : String
  pub blocks : List Block

-- The runtime's API, the poster and the clock. Errors are their messages; the handler looks at
-- neither the error of `Approve` nor that of `Post`.
pub record World : Type 1 where
  pub State : Type 0
  pub submit : SubmitBody → State → Result String String × State
  pub get : String → State → Result String Snapshot × State
  pub approve : String → String → Bool → String → State → Result String (Unit {0}) × State
  pub post : Message → State → Result String (Unit {0}) × State
  pub now : State → ℕ
  pub sleep : ℕ → State → State

abbrev pub message : String → String → String → List Block → Message
message channel thread_ts fallback blocks = record {
  channel = channel;
  thread_ts = thread_ts;
  fallback = fallback;
  blocks = blocks;
}

-- The handler's surroundings, with every message that was handed to the poster.
module _ (W : World) where
  pub record Run : Type 0 where
    pub world : W.State
    pub posted : List Message

  unfoldable pub post : Message → Run → Run
  post m s = record { world = (W.post m s.world).1; posted = s.posted ++ m ∷ [] }

  module _ (utf8 : String → Bytes) (h : Handler) (l : Launch) where
    -- A message to the thread of the task.
    abbrev pub reply : String → List Block → Message
    reply fallback blocks = message l.channel l.thread_ts fallback blocks

    abbrev pub acknowledgement : Message
    acknowledgement = reply "Got it — working on it." (status_blocks utf8 "Got it — working on it…")

    abbrev pub not_started : String → Message
    not_started e = reply "Could not start the task." (error_blocks utf8 e)

    abbrev pub card : String → Pending → Message
    card task_id p =
        reply "Approval required." (approval_blocks utf8 task_id p.approval_id p.tool "")

    abbrev pub done_message : String → Message
    done_message output = reply "Done." (result_blocks utf8 output)

    abbrev pub failed_message : String → Message
    failed_message e = reply "Task failed." (error_blocks utf8 e)

    abbrev pub timed_out : Message
    timed_out = reply "Task timed out." (error_blocks utf8 "task timed out before completing")

    -- The card of an approval that has none yet, and the approvals that have one.
    abbrev show_card : String → Option Pending → List String → Run → List String × Run
    show_card task_id none shown s = (shown, s)
    show_card task_id (some p) shown s =
        if contains shown p.approval_id
        then (shown, s)
        else (p.approval_id ∷ shown, post (card task_id p) s)

    abbrev output_of : Option TaskResult → String
    output_of none = ""
    output_of (some r) = r.output

    -- The end of a round: the task is over, or the loop sleeps and goes on.
    abbrev conclude : (List String → Run → Run) → Snapshot → List String × Run → Run
    conclude again snap (shown, s) =
        if snap.status == "done"
        then post (done_message (output_of snap.result)) s
        else if snap.status == "error"
        then post (failed_message (last_error snap)) s
        else again shown (record s { world = W.sleep h.poll_every s.world })

    abbrev look :
        (List String → Run → Run)
        → String
        → List String
        → List Message
        → Result String Snapshot × W.State
        → Run
    look again task_id shown posted (err e, w) =
        again shown (record { world = W.sleep h.poll_every w; posted = posted })
    look again task_id shown posted (ok snap, w) =
        conclude again snap
          (show_card task_id snap.pending shown (record { world = w; posted = posted }))

    -- The polling loop, for at most `fuel` looks at the clock.
    unfoldable pub poll : ℕ → String → ℕ → List String → Run → Run
    unfolding post
    poll zero task_id deadline shown s = s
    poll (suc fuel) task_id deadline shown s =
        if ltb (W.now s.world) deadline
        then look (poll fuel task_id deadline) task_id shown s.posted (W.get task_id s.world)
        else post timed_out s

    abbrev start : ℕ → List Message → Result String String × W.State → Run
    start fuel posted (err e, w) = post (not_started e) (record { world = w; posted = posted })
    start fuel posted (ok task_id, w) =
        poll fuel task_id (W.now w + h.poll_for) [] (record { world = w; posted = posted })

    abbrev submit_body : SubmitBody
    submit_body = record {
      inline_goal = l.text;
      recipe_id = "";
      identity = l.identity;
      committee = "";
      hard_task = false;
    }

    abbrev acknowledge : ℕ → Run → Run
    acknowledge fuel s = start fuel s.posted (W.submit submit_body s.world)

    unfoldable pub run_task : ℕ → Run → Run
    unfolding post poll
    run_task fuel s =
        if trim_space l.text == "" then s else acknowledge fuel (post acknowledgement s)
