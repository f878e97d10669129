-- ===== src/Workspace.antt =====
-- mcp-servers/google-workspace/internal: the typed models and their validation (domain/models.go) and
-- the use cases (service/workspace.go), over Google as an interface.
pub mod Client
pub mod Message
pub mod Tools
use sl_open_bark.Common.{
  String, Bool, not, ◌||◌, List, [], ◌∷◌, Option, none, some, if◌then◌else◌, ◌==◌, string_eq,
}
use sl_open_bark.Common.Int.{ℤ}
use sl_open_bark.Common.Lists.{filter}
use sl_open_bark.Common.Result.{Action, raise}
use sl_open_bark.Common.Text.{trim_space}

pub record SheetData : Type 0 where
  pub spreadsheet_id : String
  pub range : String
  pub rows : List (List String)

pub record CalendarEvent : Type 0 where
  pub id : String
  pub summary : String
  pub description : String
  pub location : String
  pub start : String
  pub end : String
  pub attendees : List String

pub record EmailDraft : Type 0 where
  pub to : List String
  pub cc : List String
  pub subject : String
  pub body : String

pub record DriveFile : Type 0 where
  pub id : String
  pub name : String
  pub mime_type : String
  pub modified_time : String

pub data WorkspaceError : Type 0 where
  no_recipient no_subject no_summary no_times no_spreadsheet_id : WorkspaceError
  google_failed : String → WorkspaceError

abbrev pub blank : String → Bool
blank s = trim_space s == ""

abbrev non_empty : List String → List String
non_empty values = filter (λ v. not (blank v)) values

abbrev is_nil : List String → Bool
is_nil [] = Bool.true
is_nil (v ∷ vs) = Bool.false

unfoldable pub validate_email_draft : EmailDraft → Option WorkspaceError
validate_email_draft d =
    if is_nil (non_empty d.to)
    then some no_recipient
    else if blank d.subject
    then some no_subject
    else none

unfoldable pub validate_event : CalendarEvent → Option WorkspaceError
validate_event e =
    if blank e.summary
    then some no_summary
    else if blank e.start || blank e.end
    then some no_times
    else none

pub record Google : Type 1 where
  pub State : Type 0
  pub read_sheet : String → String → Action State WorkspaceError SheetData
  pub list_events : String → String → String → ℤ → Action State WorkspaceError (List CalendarEvent)
  pub create_event : String → CalendarEvent → Action State WorkspaceError CalendarEvent
  pub create_draft : EmailDraft → Action State WorkspaceError String
  pub send_email : EmailDraft → Action State WorkspaceError String
  pub list_drive_files : String → ℤ → Action State WorkspaceError (List DriveFile)

module _ (G : Google) where
  abbrev pub Call : Type 0 → Type 0
  Call A = Action G.State WorkspaceError A

  abbrev validated : {A : Type 0} → Option WorkspaceError → Call A → Call A
  validated none call = call
  validated (some e) call = raise e

  abbrev primary_or : String → String
  primary_or calendar_id = if calendar_id == "" then "primary" else calendar_id

  unfoldable pub read_sheet : String → String → Call SheetData
  read_sheet spreadsheet_id rng =
      if spreadsheet_id == "" then raise no_spreadsheet_id else G.read_sheet spreadsheet_id rng

  unfoldable pub list_events : String → String → String → ℤ → Call (List CalendarEvent)
  list_events calendar_id time_min time_max max =
      G.list_events (primary_or calendar_id) time_min time_max max

  unfoldable pub create_event : String → CalendarEvent → Call CalendarEvent
  unfolding validate_event
  create_event calendar_id e =
      validated (validate_event e) (G.create_event (primary_or calendar_id) e)

  unfoldable pub draft_email : EmailDraft → Call String
  unfolding validate_email_draft
  draft_email d = validated (validate_email_draft d) (G.create_draft d)

  unfoldable pub send_email : EmailDraft → Call String
  unfolding validate_email_draft
  send_email d = validated (validate_email_draft d) (G.send_email d)

  unfoldable pub list_drive_files : String → ℤ → Call (List DriveFile)
  list_drive_files query max = G.list_drive_files query max
