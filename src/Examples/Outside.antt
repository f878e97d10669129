-- ===== src/Examples/Outside.antt =====
-- An email, and the hosts of a sandbox.
use sl_open_bark.Workspace.{Google, no_spreadsheet_id}
use sl_open_bark.Workspace.Tools.{EmailInput, gmail_send, draft_of, serve_tool}
use sl_open_bark.Workspace.Tools.Sent.{Deliverable, serve_tool-Sent}
use sl_open_bark.Mcp.{Request, mcp_route}
use sl_open_bark.Mcp.Admitted.{Admitted}
use sl_open_bark.Common.{
  ℕ, String, Bool, true, false, List, [], ◌∷◌, ◌++◌, ◌≡◌, ◌≢◌, ◌↔◌, ◌⊎◌, refl, nat_eq, string_eq,
}
use sl_open_bark.Common.Members.{Elem}
use sl_open_bark.Common.Result.{ok, err}
use sl_open_bark.Common.Text.{trim_space}
use sl_open_bark.Gateway.Redact.{to_lower, lower}
use sl_open_bark.Engineering.{allowed_hosts}
use sl_open_bark.Engineering.Egress.{allowed, blocked_name}
use sl_open_bark.Engineering.Egress.Denied.{Below, allowed-Below}
use sl_open_bark.Workspace.{EmailDraft}
use sl_open_bark.Workspace.Message.{render}
use sl_open_bark.Workspace.Message.Lines.{lines, headers, is_plain, lines-render}

abbrev reminder : EmailDraft
reminder = record {
  to = "a@cmu.edu" ∷ "b@cmu.edu" ∷ [];
  cc = [];
  subject = "Receipts";
  body = "Please send them.";
}

lines-render_example : lines (render reminder) ≡ headers reminder ++ "" ∷ lines reminder.body
unfolding is_plain nat_eq
lines-render_example = lines-render reminder (refl, (refl, tt)) tt refl

-- A subject with a line end adds a header.
abbrev injected : EmailDraft
injected = record reminder { subject = "Receipts\r\nBcc: c@example.com" }

added_header :
    lines (render injected)
    ≡ "To: a@cmu.edu, b@cmu.edu" ∷ "Subject: Receipts" ∷ "Bcc: c@example.com" ∷ "MIME-Version: 1.0"
      ∷ "Content-Type: text/plain; charset=\"UTF-8\"" ∷ "" ∷ "Please send them." ∷ []
unfolding lines render nat_eq
added_header = refl

abbrev wide : ℕ → ℕ
wide c = c

abbrev no_ip : List ℕ → Bool
no_ip host = false

allowed-Below_example : (allowed wide no_ip "uploads.GitHub.com" ≡ true) ↔ (
    (to_lower wide (trim_space "uploads.GitHub.com") ≢ [])
    × (no_ip (to_lower wide (trim_space "uploads.GitHub.com")) ≡ false)
    × (blocked_name (to_lower wide (trim_space "uploads.GitHub.com")) ≡ false)
    × ((a : String) × Elem a allowed_hosts
        × Below (to_lower wide (trim_space "uploads.GitHub.com")) a))
allowed-Below_example = allowed-Below wide no_ip "uploads.GitHub.com"

subdomain : allowed wide no_ip "uploads.GitHub.com" ≡ true
unfolding allowed blocked_name trim_space to_lower lower nat_eq
subdomain = refl

lookalike : allowed wide no_ip "evilgithub.com" ≡ false
unfolding allowed blocked_name trim_space to_lower lower nat_eq
lookalike = refl

-- Google by the emails that it has sent.
abbrev outbox : Google
outbox = record {
  State = List EmailDraft;
  read_sheet = λ id rng s. (err no_spreadsheet_id, s);
  list_events = λ id from to max s. (ok [], s);
  create_event = λ id e s. (ok e, s);
  create_draft = λ d s. (ok "draft-1", s);
  send_email = λ d s. (ok "message-1", d ∷ s);
  list_drive_files = λ q max s. (ok [], s);
}

abbrev mail_input : EmailInput
mail_input = record { to = "ana@example.org" ∷ []; cc = []; subject = "Hi"; body = "See you." }

abbrev mail_request : Request
mail_request = record { route = mcp_route; authorization = "Bearer key" }

serve_tool-Sent_example :
    ((Admitted "key" mail_request × Deliverable (draft_of mail_input))
      × ((serve_tool outbox "key" mail_request (gmail_send mail_input) []).1
          ≡ draft_of mail_input ∷ []))
    ⊎ ((¬ (Admitted "key" mail_request × Deliverable (draft_of mail_input)))
        × ((serve_tool outbox "key" mail_request (gmail_send mail_input) []).1 ≡ []))
serve_tool-Sent_example = serve_tool-Sent outbox "key" mail_request mail_input []

mail_sent :
    (serve_tool outbox "key" mail_request (gmail_send mail_input) []).1 ≡ draft_of mail_input ∷ []
unfolding serve_tool trim_space string_eq
mail_sent = refl
