-- ===== src/Slack.antt =====
-- services/slack-gateway: the human front door.
pub mod Blocks
pub mod Client
pub mod Handler
pub mod Interactions
pub mod Task
pub mod Value
