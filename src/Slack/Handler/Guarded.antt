-- ===== src/Slack/Handler/Guarded.antt =====
-- handler.go: which requests of Slack the gateway acts on.
use sl_open_bark.Common.{String, true, Option, none, some, ◌≡◌, ◌≢◌, ◌⊎◌, ◌↔◌, refl, ap, ◌∙◌, arith}
use sl_open_bark.Slack.Handler.Mention.{clean_text}
use sl_open_bark.Slack.Handler.{
  Handler, Request, Headers, Library, Launch, SlackEvent, url_verification, callback_event,
  other_event, InnerEvent, app_mention, message_event, other_inner, verify, verified, events,
  from_body, from_event, from_inner, identity, first_non_empty,
}

-- The task of an event: its place, its thread, which is a new one under a message that has none, who
-- it runs for and what it is.
abbrev pub task_of : InnerEvent → Launch
task_of (app_mention e) = record {
  channel = e.channel;
  thread_ts = first_non_empty e.thread_ts e.ts;
  identity = identity e.user;
  text = clean_text e.text;
}
task_of (message_event e) = record {
  channel = e.channel;
  thread_ts = first_non_empty e.thread_ts e.ts;
  identity = identity e.user;
  text = clean_text e.text;
}
task_of other_inner = record { channel = ""; thread_ts = ""; identity = ""; text = "" }

-- An event that a person addressed to the bot: a mention by another user, or a direct message that
-- neither a bot nor an edit sent.
abbrev pub Addressed : Handler → InnerEvent → Type 0
Addressed h (app_mention e) = e.user ≢ h.bot_user_id
Addressed h (message_event e) =
    (e.user ≢ h.bot_user_id) × (e.bot_id ≡ "") × (e.sub_type ≡ "") × (e.channel_type ≡ "im")
Addressed h other_inner = ⊥

module _ (L : Library) where
  -- The body is there, and either signed with the secret, or there is no secret.
  abbrev pub Signed : Handler → Request → String → Type 0
  Signed h r body =
      (r.body ≡ some body)
      × ((h.signing_secret ≡ "") ⊎ (L.signed h.signing_secret r.headers body ≡ true))

  verified-Signed :
      (h : Handler) (headers : Headers) (o : Option String) (body : String)
      → (verified L h headers o ≡ some body) ↔ (
          (o ≡ some body)
          × ((h.signing_secret ≡ "") ⊎ (L.signed h.signing_secret headers body ≡ true)))
  verified-Signed h headers none body = (λ v. cc, λ (v, s). cc)
  verified-Signed h headers (some b) body = ground arith

  -- The task is that of an event which a person addressed to the bot, in a body that is signed.
  abbrev pub Asked : Handler → Request → Launch → Type 0
  Asked h r l =
      (body : String) × (e : InnerEvent) × Signed h r body
      × (L.parse_event body ≡ some (callback_event e))
      × Addressed h e
      × (l ≡ task_of e)

  from_inner-Addressed :
      (h : Handler) (e : InnerEvent) (l : Launch)
      → (from_inner L h e ≡ some l) ↔ (Addressed h e × (l ≡ task_of e))
  from_inner-Addressed h (app_mention e) l = ground arith
  from_inner-Addressed h (message_event e) l = ground arith
  from_inner-Addressed h other_inner l = (λ k. cc, λ (a, e). absurd a)

  from_event-Asked :
      (h : Handler) (r : Request) (body : String) (o : Option SlackEvent) (l : Launch)
      → Signed h r body
      → L.parse_event body ≡ o
      → (from_event L h o).1 ≡ some l
      → Asked h r l
  from_event-Asked h r body none l v p k = cc
  from_event-Asked h r body (some (url_verification c)) l v p k = cc
  from_event-Asked h r body (some other_event) l v p k = cc
  from_event-Asked h r body (some (callback_event e)) l v p k =
      let (addressed, same) = (from_inner-Addressed h e l).0 k in (body, e, v, p, addressed, same)

  from_body-Asked :
      (h : Handler) (r : Request) (o : Option String) (l : Launch)
      → verify L h r ≡ o
      → (from_body L h o).1 ≡ some l
      → Asked h r l
  unfolding verify
  from_body-Asked h r none l v k = cc
  from_body-Asked h r (some body) l v k =
      from_event-Asked h r body (L.parse_event body) l
        ((verified-Signed h r.headers r.body body).0 v) refl k

  Asked-events : (h : Handler) (r : Request) (l : Launch) → Asked h r l → (events L h r).1 ≡ some l
  unfolding events
  Asked-events h r l (body, e, signed, parsed, addressed, same) =
      ap (λ o. (from_body L h o).1) ((verified-Signed h r.headers r.body body).1 signed)
      ∙ ap (λ o. (from_event L h o).1) parsed
      ∙ (from_inner-Addressed h e l).1 (addressed, same)

  -- An event starts a task exactly if the request's body is signed with the secret, or no secret is
  -- configured, and holds a callback in which a user other than the bot mentions it, or sends it a
  -- direct message that neither a bot nor an edit sent; the task is then in the event's channel and
  -- thread, runs under that user's identity, and is the event's text without mentions.
  pub events-Asked :
      (h : Handler) (r : Request) (l : Launch) → ((events L h r).1 ≡ some l) ↔ Asked h r l
  unfolding events
  events-Asked h r l = (from_body-Asked h r (verify L h r) l refl, Asked-events h r l)
