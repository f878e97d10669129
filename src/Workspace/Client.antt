-- ===== src/Workspace/Client.antt =====
-- mcp-servers/google-workspace/internal/clients/google.go: the calls of Google's libraries, which are
-- parameters.
use sl_open_bark.Common.{String, List, map, Option, none, some, if◌then◌else◌, ◌==◌, string_eq}
use sl_open_bark.Common.Int.{ℤ, pos, negsuc}
use sl_open_bark.Common.Result.{Result, ok, err}
use sl_open_bark.Common.{ℕ, zero, suc}
use sl_open_bark.Workspace.{
  SheetData, CalendarEvent, DriveFile, WorkspaceError, google_failed, Google,
}
use sl_open_bark.Workspace.Message.{encode_message}

-- `calendar.EventDateTime`: a time, or a date for an event of a whole day.
pub record EventDateTime : Type 0 where
  pub date_time : String
  pub date : String

pub record RemoteEvent : Type 0 where
  pub id : String
  pub summary : String
  pub description : String
  pub location : String
  pub start : Option EventDateTime
  pub end : Option EventDateTime
  pub attendees : List String

-- The arguments of a listing; none where the call does not set one.
pub record EventsQuery : Type 0 where
  pub calendar_id : String
  pub time_min : Option String
  pub time_max : Option String
  pub max_results : Option ℕ

pub record FilesQuery : Type 0 where
  pub query : Option String
  pub page_size : Option ℕ

-- A cell is the text that `%v` prints.
pub record Values : Type 0 where
  pub range : String
  pub rows : List (List String)

pub record Api : Type 1 where
  pub State : Type 0
  pub encode : String → String
  pub values : String → String → State → Result String Values × State
  pub events : EventsQuery → State → Result String (List RemoteEvent) × State
  pub insert : String → RemoteEvent → State → Result String RemoteEvent × State
  pub draft : String → State → Result String String × State
  pub send : String → State → Result String String × State
  pub files : FilesQuery → State → Result String (List DriveFile) × State

abbrev set : String → Option String
set s = if s == "" then none else some s

abbrev positive : ℤ → Option ℕ
positive (pos zero) = none
positive (pos (suc n)) = some (suc n)
positive (negsuc n) = none

abbrev pub event_time : Option EventDateTime → String
event_time none = ""
event_time (some t) = if t.date_time == "" then t.date else t.date_time

pub to_domain_event : RemoteEvent → CalendarEvent
to_domain_event e = record {
  id = e.id;
  summary = e.summary;
  description = e.description;
  location = e.location;
  start = event_time e.start;
  end = event_time e.end;
  attendees = e.attendees;
}

abbrev at : String → Option EventDateTime
at time = some (record { date_time = time; date = "" })

abbrev to_remote : CalendarEvent → RemoteEvent
to_remote e = record {
  id = "";
  summary = e.summary;
  description = e.description;
  location = e.location;
  start = at e.start;
  end = at e.end;
  attendees = e.attendees;
}

module _ (A : Api) where
  abbrev returned :
      {R B : Type 0} → (R → B) → Result String R × A.State → Result WorkspaceError B × A.State
  returned f (ok r, s) = (ok (f r), s)
  returned f (err e, s) = (err (google_failed e), s)

  abbrev sheet_of : String → Values → SheetData
  sheet_of id v = record { spreadsheet_id = id; range = v.range; rows = v.rows }

  abbrev same : {R : Type 0} → R → R
  same r = r

  unfoldable pub google : Google
  unfolding to_domain_event encode_message
  google = record {
    State = A.State;
    read_sheet = λ id rng s. returned (sheet_of id) (A.values id rng s);
    list_events = λ calendar_id time_min time_max max s. returned (map to_domain_event) (
        A.events
          (record {
            calendar_id = calendar_id;
            time_min = set time_min;
            time_max = set time_max;
            max_results = positive max;
          })
          s);
    create_event =
        λ calendar_id e s. returned to_domain_event (A.insert calendar_id (to_remote e) s);
    create_draft = λ d s. returned same (A.draft (encode_message A.encode d) s);
    send_email = λ d s. returned same (A.send (encode_message A.encode d) s);
    list_drive_files = λ query max s.
        returned same (A.files (record { query = set query; page_size = positive max }) s);
  }
