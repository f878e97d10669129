-- ===== src/Slack/Interactions/Clicked.antt =====
-- handler.go and blocks.go: what a click on a button of a card does.
use sl_open_bark.Common.{
  String, Bool, true, false, List, [], ◌∷◌, ◌++◌, Option, none, some, if◌then◌else◌, ◌==◌,
  string_eq, ◌≡◌, inl, inr, refl, ap, ◌∙◌,
}
use sl_open_bark.Common.Members.{Elem}
use sl_open_bark.Assembly.{Bytes}
use sl_open_bark.Slack.Value.{encode_value, decode_value}
use sl_open_bark.Slack.Value.RoundTrip.{Separable, decode_value-encode_value}
use sl_open_bark.Slack.Blocks.{
  Button, Block, action_block, approval_blocks, approval_buttons, action_approve, action_cancel,
}
use sl_open_bark.Slack.Handler.{
  Handler, Request, Interaction, BlockAction, Library, identity, verify,
}
use sl_open_bark.Slack.Task.{World, Message, Run, post}
use sl_open_bark.Slack.Interactions.{interactions, clicked, act}

-- The buttons that a message shows.
abbrev pub buttons : List Block → List Button
buttons [] = []
buttons (action_block id bs ∷ blocks) = bs ++ buttons blocks
buttons (b ∷ blocks) = buttons blocks

-- What Slack sends for a click on a button.
abbrev pub click : Button → BlockAction
click b = record { action_id = b.action_id; value = b.value }

-- The decision that a button stands for.
abbrev pub decision : String → Option Bool
decision action_id =
    if action_id == action_approve
    then some true
    else if action_id == action_cancel
    then some false
    else none

module _ (utf8 : String → Bytes) (W : World) where
  -- The runtime after a decision, or as it was.
  abbrev pub decided : String → String → String → Option Bool → W.State → W.State
  decided task_id approval_id by none w = w
  decided task_id approval_id by (some granted) w = (W.approve task_id approval_id granted by w).1

  -- One message is posted, to the thread of the card; before it, the decision is passed on.
  abbrev pub Clicks : Interaction → String → String → String → Run W → Run W → Type 0
  Clicks cb task_id approval_id action_id s after =
      (m : Message) × (m.channel ≡ cb.channel)
      × (m.thread_ts ≡ cb.message_ts)
      × (after
          ≡ post W m (record s {
            world = decided task_id approval_id (identity cb.user_id) (decision action_id) s.world;
          }))

  module _ (L : Library) where
    -- What a button does, once its value is decoded.
    act-Clicks :
        (cb : Interaction) (t a : String) (b : Button) (s : Run W)
        → Elem b (approval_buttons utf8 t a)
        → (b.value ≡ encode_value t a)
          × Clicks cb t a b.action_id s (act utf8 W cb b.action_id (t, a) s)
    unfolding string_eq
    act-Clicks cb t a b s (inl e) = rw e (refl, (_, refl, refl, refl))
    act-Clicks cb t a b s (inr (inl e)) = rw e (refl, (_, refl, refl, refl))
    act-Clicks cb t a b s (inr (inr (inl e))) = rw e (refl, (_, refl, refl, refl))
    act-Clicks cb t a b s (inr (inr (inr m))) = absurd m

    clicked_button :
        (cb : Interaction) (task_id approval_id : String) (b : Button) (s : Run W)
        → Separable task_id
        → Elem b (approval_buttons utf8 task_id approval_id)
        → Clicks cb task_id approval_id b.action_id s (clicked utf8 W cb (click b ∷ []) s)
    unfolding clicked
    clicked_button cb t a b s sep m =
        let (value, done) = act-Clicks cb t a b s m in
        let e : decode_value b.value ≡ (t, a) =
          ap decode_value value ∙ (decode_value-encode_value t a).1 sep in
        rw e done

    -- A click, on a button of the card for an approval of a task whose id holds no separator, in a
    -- request that is verified: the runtime gets the decision that the button stands for, with
    -- exactly this task, this approval and the user who clicked, or no decision at "Review"; then
    -- one message goes to the card's thread.
    pub interactions-Clicks :
        (h : Handler) (r : Request) (body : String) (cb : Interaction) (s : Run W)
        (task_id approval_id tool args : String) (b : Button)
        → verify L h r ≡ some body
        → L.parse_interaction body ≡ some cb
        → cb.is_block_actions ≡ true
        → Elem b (buttons (approval_blocks utf8 task_id approval_id tool args))
        → cb.actions ≡ click b ∷ []
        → Separable task_id
        → Clicks cb task_id approval_id b.action_id s (interactions utf8 W L h r s).1
    unfolding interactions approval_blocks
    interactions-Clicks h r body cb s t a tool args b v p is m e sep =
        rw (v, p, is, e) (clicked_button cb t a b s sep m)
