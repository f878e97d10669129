-- ===== src/Slack/Handler.antt =====
-- services/slack-gateway/internal/slack/handler.go: the Slack events and slash commands. The Slack
-- library is a parameter: the check of a signature, and the parsers of its payloads. A task that an
-- event starts in the background is a `Launch`. Times are milliseconds.
pub mod Guarded
pub mod Mention
use sl_open_bark.Common.{
  ℕ, String, ◌<>◌, Bool, not, ◌||◌, List, [], ◌∷◌, Option, none, some, if◌then◌else◌, ◌==◌,
  string_eq,
}
use sl_open_bark.Slack.Client.{Event, Snapshot}
use sl_open_bark.Slack.Handler.Mention.{clean_text}

pub record Headers : Type 0 where
  pub timestamp : String
  pub signature : String

-- The body is none where it cannot be read.
pub record Request : Type 0 where
  pub headers : Headers
  pub body : Option String

pub record AppMention : Type 0 where
  pub user : String
  pub channel : String
  pub thread_ts : String
  pub ts : String
  pub text : String

pub record MessageEvent : Type 0 where
  pub user : String
  pub bot_id : String
  pub sub_type : String
  pub channel_type : String
  pub channel : String
  pub thread_ts : String
  pub ts : String
  pub text : String

pub data InnerEvent : Type 0 where
  app_mention : AppMention → InnerEvent
  message_event : MessageEvent → InnerEvent
  other_inner : InnerEvent

-- An event by its type; the challenge is what the body decodes to.
pub data SlackEvent : Type 0 where
  url_verification : String → SlackEvent
  callback_event : InnerEvent → SlackEvent
  other_event : SlackEvent

pub record BlockAction : Type 0 where
  pub action_id : String
  pub value : String

pub record Interaction : Type 0 where
  pub is_block_actions : Bool
  pub user_id : String
  pub channel : String
  pub message_ts : String
  pub actions : List BlockAction

pub record SlashCommand : Type 0 where
  pub command : String
  pub text : String

-- The Slack library: whether a signing secret signs a body under the request's headers, and what a
-- body parses to.
pub record Library : Type 0 where
  pub signed : String → Headers → String → Bool
  pub parse_event : String → Option SlackEvent
  pub parse_interaction : String → Option Interaction
  pub parse_command : String → SlashCommand

pub data Response : Type 0 where
  problem : ℕ → String → Response
  challenge : String → Response
  acknowledged : Response
  ephemeral : String → Response

-- The arguments of `runTask`.
pub record Launch : Type 0 where
  pub channel : String
  pub thread_ts : String
  pub identity : String
  pub text : String

pub record Handler : Type 0 where
  pub signing_secret : String
  pub bot_user_id : String
  pub poll_every : ℕ
  pub poll_for : ℕ

abbrev pub new : String → String → Handler
new signing_secret bot_user_id = record {
  signing_secret = signing_secret;
  bot_user_id = bot_user_id;
  poll_every = 900;
  poll_for = 100000;
}

abbrev pub identity : String → String
identity user_id = if user_id == "" then "slack:unknown" else "slack:" <> user_id

abbrev pub first_non_empty : String → String → String
first_non_empty a b = if not (a == "") then a else b

-- The text of the last error among the events.
abbrev last_error_or : String → List Event → String
last_error_or text [] = text
last_error_or text (e ∷ events) = last_error_or (if e.kind == "error" then e.text else text) events

abbrev pub last_error : Snapshot → String
last_error s = last_error_or "task failed" s.events

module _ (L : Library) where
  abbrev verified : Handler → Headers → Option String → Option String
  verified h headers none = none
  verified h headers (some body) =
      if h.signing_secret == ""
      then some body
      else if L.signed h.signing_secret headers body
      then some body
      else none

  unfoldable pub verify : Handler → Request → Option String
  verify h r = verified h r.headers r.body

  abbrev from_inner : Handler → InnerEvent → Option Launch
  from_inner h (app_mention e) =
      if e.user == h.bot_user_id
      then none
      else some (record {
        channel = e.channel;
        thread_ts = first_non_empty e.thread_ts e.ts;
        identity = identity e.user;
        text = clean_text e.text;
      })
  from_inner h (message_event e) =
      if not (e.bot_id == "")
        || e.user == h.bot_user_id
        || not (e.sub_type == "")
        || not (e.channel_type == "im")
      then none
      else some (record {
        channel = e.channel;
        thread_ts = first_non_empty e.thread_ts e.ts;
        identity = identity e.user;
        text = clean_text e.text;
      })
  from_inner h other_inner = none

  abbrev from_event : Handler → Option SlackEvent → Response × Option Launch
  from_event h none = (problem 400 "bad request", none)
  from_event h (some (url_verification c)) = (challenge c, none)
  from_event h (some (callback_event e)) = (acknowledged, from_inner h e)
  from_event h (some other_event) = (acknowledged, none)

  abbrev from_body : Handler → Option String → Response × Option Launch
  from_body h none = (problem 401 "unauthorized", none)
  from_body h (some body) = from_event h (L.parse_event body)

  unfoldable pub events : Handler → Request → Response × Option Launch
  unfolding verify
  events h r = from_body h (verify h r)

  abbrev command_text : SlashCommand → String
  command_text c =
      ":wrench: `"
      <> (c.command
          <> (" "
              <> (c.text
                  <> "` enqueued to the Engineering Agent. You'll get a draft PR link here when it's ready. (WP-11)")))

  abbrev command_for : Option String → Response
  command_for none = problem 401 "unauthorized"
  command_for (some body) = ephemeral (command_text (L.parse_command body))

  unfoldable pub command : Handler → Request → Response
  unfolding verify
  command h r = command_for (verify h r)
