-- ===== src/Workspace/Tools.antt =====
-- mcp-servers/google-workspace/internal/tools/tools.go: the tools of the server, by their inputs. The
-- MCP library decodes the inputs and encodes what is returned.
pub mod Sent
use sl_open_bark.Common.{String, List, []}
use sl_open_bark.Common.Int.{ℤ}
use sl_open_bark.Common.Result.{Result, Action, pure, ◌>>=◌}
use sl_open_bark.Workspace.{
  SheetData, CalendarEvent, EmailDraft, DriveFile, WorkspaceError, Google, read_sheet, list_events,
  create_event, draft_email, send_email, list_drive_files,
}
use sl_open_bark.Mcp.{Request, Answer, serve}

pub record SheetsReadInput : Type 0 where
  pub spreadsheet_id : String
  pub range : String

pub record CalendarListInput : Type 0 where
  pub calendar_id : String
  pub time_min : String
  pub time_max : String
  pub max : ℤ

pub record CalendarCreateInput : Type 0 where
  pub calendar_id : String
  pub summary : String
  pub description : String
  pub location : String
  pub start : String
  pub end : String
  pub attendees : List String

pub record EmailInput : Type 0 where
  pub to : List String
  pub cc : List String
  pub subject : String
  pub body : String

pub record DriveReadInput : Type 0 where
  pub query : String
  pub max : ℤ

pub record IdOutput : Type 0 where
  pub id : String

pub data ToolCall : Type 0 where
  sheets_read : SheetsReadInput → ToolCall
  calendar_list : CalendarListInput → ToolCall
  calendar_create_event : CalendarCreateInput → ToolCall
  gmail_draft : EmailInput → ToolCall
  gmail_send : EmailInput → ToolCall
  drive_read : DriveReadInput → ToolCall

pub data Output : Type 0 where
  sheet : SheetData → Output
  events : List CalendarEvent → Output
  event : CalendarEvent → Output
  id_output : IdOutput → Output
  files : List DriveFile → Output

abbrev pub event_of : CalendarCreateInput → CalendarEvent
event_of input = record {
  id = "";
  summary = input.summary;
  description = input.description;
  location = input.location;
  start = input.start;
  end = input.end;
  attendees = input.attendees;
}

abbrev pub draft_of : EmailInput → EmailDraft
draft_of input = record { to = input.to; cc = input.cc; subject = input.subject; body = input.body }

module _ (G : Google) where
  abbrev Tool : Type 0
  Tool = Action G.State WorkspaceError Output

  abbrev output : {A : Type 0} → (A → Output) → Action G.State WorkspaceError A → Tool
  output f call = do a ← call; pure (f a)

  -- The handlers that `Register` adds.
  unfoldable pub call_tool : ToolCall → Tool
  unfolding read_sheet list_events create_event draft_email send_email list_drive_files
  call_tool (sheets_read input) = output sheet (read_sheet G input.spreadsheet_id input.range)
  call_tool (calendar_list input) =
      output events (list_events G input.calendar_id input.time_min input.time_max input.max)
  call_tool (calendar_create_event input) =
      output event (create_event G input.calendar_id (event_of input))
  call_tool (gmail_draft input) =
      output (λ id. id_output (record { id = id })) (draft_email G (draft_of input))
  call_tool (gmail_send input) =
      output (λ id. id_output (record { id = id })) (send_email G (draft_of input))
  call_tool (drive_read input) = output files (list_drive_files G input.query input.max)

  -- A call over HTTP.
  unfoldable pub serve_tool :
      String → Request → ToolCall → G.State → Answer (Result WorkspaceError Output) × G.State
  unfolding call_tool serve
  serve_tool token r tool s = serve token (call_tool tool) r s
