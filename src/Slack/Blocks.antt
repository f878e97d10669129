-- ===== src/Slack/Blocks.antt =====
-- blocks.go of the Slack gateway: the messages in Slack's block form. A text in a block is its
-- bytes; `utf8` gives the bytes of a text.
use sl_open_bark.Common.{ℕ, String, ◌<>◌, List, [], ◌∷◌, ◌++◌, if◌then◌else◌, ◌==◌, string_eq, leb}
use sl_open_bark.Common.Lists.{length, take}
use sl_open_bark.Common.Text.{trim_space}
use sl_open_bark.Assembly.{Bytes}
use sl_open_bark.Slack.Value.{encode_value}

abbrev pub action_approve : String
action_approve = "sl_approve"

abbrev pub action_review : String
action_review = "sl_review"

abbrev pub action_cancel : String
action_cancel = "sl_cancel"

pub data Style : Type 0 where
  plain primary danger : Style

pub record Button : Type 0 where
  pub action_id : String
  pub value : String
  pub label : String
  pub style : Style

pub data Block : Type 0 where
  section_block : Bytes → Block
  context_block : Bytes → Block
  action_block : String → List Button → Block

-- "…" in UTF-8
abbrev ellipsis : Bytes
ellipsis = 226 ∷ 128 ∷ 166 ∷ []

pub truncate : Bytes → ℕ → Bytes
truncate s n = if leb (length s) n then s else take n s ++ ellipsis

module _ (utf8 : String → Bytes) where
  unfoldable pub status_blocks : String → List Block
  status_blocks text = section_block (utf8 (":robot_face: " <> text)) ∷ []

  abbrev shown_output : String → String
  shown_output output = if trim_space output == "" then "_(no output)_" else output

  pub result_blocks : String → List Block
  unfolding truncate
  result_blocks output =
      section_block
        (utf8 ":white_check_mark: *Done.*\n" ++ truncate (utf8 (shown_output output)) 2800)
      ∷ context_block (utf8 "ScottyLabs Agent · audited")
      ∷ []

  pub error_blocks : String → List Block
  unfolding truncate
  error_blocks msg = section_block (utf8 ":x: *Task failed:* " ++ truncate (utf8 msg) 2800) ∷ []

  abbrev button : String → String → String → Style → Button
  button action_id value label style = record {
    action_id = action_id;
    value = value;
    label = label;
    style = style;
  }

  -- The buttons of a card.
  abbrev pub approval_buttons : String → String → List Button
  approval_buttons task_id approval_id =
      let value = encode_value task_id approval_id in
      button action_approve value "Approve" primary
      ∷ button action_review value "Review" plain
      ∷ button action_cancel value "Cancel" danger
      ∷ []

  unfoldable pub approval_blocks : String → String → String → String → List Block
  unfolding truncate
  approval_blocks task_id approval_id tool args_json =
      section_block
        (utf8 (":warning: *Approval required* — high-impact action\n*Tool:* `" <> (tool <> "`")))
      ∷ section_block
          (utf8 "*Arguments (redacted):*\n```" ++ (truncate (utf8 args_json) 1200 ++ utf8 "```"))
      ∷ action_block "sl_approval" (approval_buttons task_id approval_id)
      ∷ []
