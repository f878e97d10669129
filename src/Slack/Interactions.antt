-- ===== src/Slack/Interactions.antt =====
-- handler.go: the clicks on the buttons of a card.
pub mod Clicked
use sl_open_bark.Common.{
  String, ◌<>◌, Bool, true, false, List, [], ◌∷◌, Option, none, some, if◌then◌else◌, ◌==◌,
  string_eq,
}
use sl_open_bark.Assembly.{Bytes}
use sl_open_bark.Slack.Value.{decode_value}
use sl_open_bark.Slack.Blocks.{status_blocks, action_approve, action_review, action_cancel}
use sl_open_bark.Slack.Handler.{
  Handler, Request, Interaction, BlockAction, Library, Response, problem, acknowledged, identity,
  verify,
}
use sl_open_bark.Slack.Task.{World, Message, Run, message, post}

module _ (utf8 : String → Bytes) (W : World) where
  -- One click.
  module _ (cb : Interaction) where
    abbrev note : String → String → Message
    note fallback text = message cb.channel cb.message_ts fallback (status_blocks utf8 text)

    abbrev pub decide : String → String → Bool → Run W → Run W
    decide task_id approval_id granted s = record s {
      world = (W.approve task_id approval_id granted (identity cb.user_id) s.world).1;
    }

    abbrev act : String → String × String → Run W → Run W
    act action_id (task_id, approval_id) s =
        if action_id == action_approve
        then post W (note "Approved." ("Approved by <@" <> (cb.user_id <> "> — resuming.")))
            (decide task_id approval_id true s)
        else if action_id == action_cancel
        then post W (note "Cancelled." (":no_entry: Cancelled by <@" <> (cb.user_id <> ">.")))
            (decide task_id approval_id false s)
        else if action_id == action_review
        then post W
            (note "Left for review." ("Left pending for review by <@" <> (cb.user_id <> ">."))) s
        else s

    unfoldable pub clicked : List BlockAction → Run W → Run W
    unfolding post decode_value
    clicked [] s = s
    clicked (a ∷ actions) s = clicked actions (act a.action_id (decode_value a.value) s)

  abbrev interact : Option Interaction → Run W → Response × Run W
  interact none s = (problem 400 "bad request", s)
  interact (some cb) s = (acknowledged, if cb.is_block_actions then clicked cb cb.actions s else s)

  module _ (L : Library) where
    abbrev interact_body : Option String → Run W → Response × Run W
    interact_body none s = (problem 401 "unauthorized", s)
    interact_body (some body) s = interact (L.parse_interaction body) s

    unfoldable pub interactions : Handler → Request → Run W → Response × Run W
    unfolding verify clicked
    interactions h r s = interact_body (verify L h r) s
