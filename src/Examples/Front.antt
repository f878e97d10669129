-- ===== src/Examples/Front.antt =====
-- The Slack gateway on a runtime whose task waits for an approval and is then done.
use sl_open_bark.Common.{
  ℕ, ◌+◌, String, true, [], ◌∷◌, none, some, ◌≡◌, refl, inl, ◌↔◌, arith, if◌then◌else◌, leb,
  string_eq, nat_eq, map,
}
use sl_open_bark.Common.Result.{ok}
use sl_open_bark.Assembly.{Bytes}
use sl_open_bark.Slack.Value.{encode_value, decode_value, cut}
use sl_open_bark.Slack.Handler.Mention.{clean_text}
use sl_open_bark.Slack.Value.RoundTrip.{decode_value-encode_value, Separable}
use sl_open_bark.Slack.Blocks.{approval_blocks, Button, action_approve, primary}
use sl_open_bark.Slack.Client.{Snapshot}
use sl_open_bark.Slack.Handler.{
  Request, AppMention, app_mention, callback_event, Interaction, Library, Launch, new, events,
  verify,
}
use sl_open_bark.Slack.Handler.Guarded.{Asked, events-Asked}
use sl_open_bark.Common.Text.{trim_space}
use sl_open_bark.Slack.Task.{World, Run, run_task, poll, post}
use sl_open_bark.Slack.Task.Watched.{Clocked, watched}
use sl_open_bark.Slack.Task.Polled.{Ends, run_task-Ends}
use sl_open_bark.Slack.Interactions.{interactions}
use sl_open_bark.Slack.Interactions.Clicked.{Clicks, interactions-Clicks}

decode_value-encode_value_example :
    (decode_value (encode_value "t1" "a1") ≡ ("t1", "a1")) ↔ Separable "t1"
decode_value-encode_value_example = decode_value-encode_value "t1" "a1"

-- Every text is one byte long.
abbrev utf8 : String → Bytes
utf8 s = 63 ∷ []

abbrev waiting : Snapshot
waiting = record {
  status = "awaiting_approval";
  events = [];
  pending = some (record { tool = "google.workspace/gmail_send"; approval_id = "a1" });
  result = none;
}

abbrev finished : Snapshot
finished = record {
  status = "done";
  events = [];
  pending = none;
  result = some (record { output = "sent"; audit_ref = "" });
}

-- The state is the time; the task is done after two seconds.
abbrev world : World
world = record {
  State = ℕ;
  submit = λ body t. (ok "t1", t + 5);
  get = λ id t. (ok (if leb 2000 t then finished else waiting), t + 1);
  approve = λ task approval granted by t. (ok tt, t + 2);
  post = λ m t. (ok tt, t + 3);
  now = λ t. t;
  sleep = λ d t. t + d;
}

clock : Clocked world
clock = record { slept = λ d w. omega arith; got = λ id w. omega arith; sent = λ m w. omega arith }

abbrev launch : Launch
launch = record { channel = "C1"; thread_ts = "ts1"; identity = "slack:U1"; text = "send it" }

abbrev idle : Run world
idle = record { world = 0; posted = [] }

abbrev unwatched : Run (watched world)
unwatched = record { world = (0, []); posted = [] }

-- 113 looks at the clock, 900 ms apart, outlast the 100 s.
run_task-Ends_example :
    Ends world utf8
      (new "" "U0")
      launch
      unwatched
      (run_task (watched world) utf8 (new "" "U0") launch 113 unwatched)
run_task-Ends_example =
    run_task-Ends world utf8 (new "" "U0") launch clock 112 unwatched (omega arith)

abbrev mention : AppMention
mention = record { user = "U1"; channel = "C1"; thread_ts = ""; ts = "ts1"; text = "send it" }

abbrev clicks : Interaction
clicks = record {
  is_block_actions = true;
  user_id = "U9";
  channel = "C1";
  message_ts = "ts2";
  actions = record { action_id = action_approve; value = "t1::a1" } ∷ [];
}

-- A library that takes every signature.
abbrev library : Library
library = record {
  signed = λ secret headers body. true;
  parse_event = λ body. some (callback_event (app_mention mention));
  parse_interaction = λ body. some clicks;
  parse_command = λ body. record { command = ""; text = "" };
}

abbrev request : Request
request = record { headers = record { timestamp = "1"; signature = "v0=1" }; body = some "body" }

launched : (events library (new "s" "U0") request).1 ≡ some launch
unfolding events clean_text string_eq
launched = refl

events-Asked_example :
    ((events library (new "s" "U0") request).1 ≡ some launch)
    ↔ Asked library (new "s" "U0") request launch
events-Asked_example = events-Asked library (new "s" "U0") request launch

abbrev approve_button : Button
approve_button = record {
  action_id = action_approve;
  value = "t1::a1";
  label = "Approve";
  style = primary;
}

interactions-Clicks_example :
    Clicks utf8 world clicks "t1" "a1" action_approve idle
      (interactions utf8 world library (new "s" "U0") request idle).1
unfolding approval_blocks encode_value cut verify string_eq nat_eq
interactions-Clicks_example =
    interactions-Clicks utf8 world library (new "s" "U0") request "body" clicks idle "t1" "a1"
      "google.workspace/gmail_send" "" approve_button refl refl refl (inl refl) refl refl

-- The thread: an acknowledgement, one card for the approval that four polls find, and the end.
thread :
    map (λ m. m.fallback) (run_task world utf8 (new "" "U0") launch 5 idle).posted
    ≡ "Got it — working on it." ∷ "Approval required." ∷ "Done." ∷ []
unfolding run_task poll post trim_space string_eq
thread = refl
