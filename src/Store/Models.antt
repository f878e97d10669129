-- ===== src/Store/Models.antt =====
-- services/session-memory/store/models.go, and the types and constants of store.go and registry.go.
-- Times are numbers of one clock. A `json.RawMessage` is a `RawMessage`, a payload by its parse.
use sl_open_bark.Common.{ℕ, String, Bool, Option, List}

mutual
  pub data Json : Type 0 where
    null : Json
    boolean : Bool → Json
    number : String → Json
    text : String → Json
    array : Items → Json
    object : Members → Json

  pub data Items : Type 0 where
    end_items : Items
    item : Json → Items → Items

  pub data Members : Type 0 where
    end_members : Members
    member : String → Json → Members → Members

-- No bytes, the text of a JSON document, or bytes that are none.
pub data RawMessage : Type 0 where
  empty : RawMessage
  document : Json → RawMessage
  malformed : String → RawMessage

pub record User : Type 0 where
  pub id : String
  pub slack_id : String
  pub name : String
  pub email : String
  pub created_at : ℕ

pub record CommitteeRole : Type 0 where
  pub user_id : String
  pub committee : String
  pub role : String
  pub created_at : ℕ

-- `user_id` is "" if it is not yet resolved.
pub record Session : Type 0 where
  pub id : String
  pub user_id : String
  pub channel : String
  pub thread_ts : String
  pub recipe : String
  pub status : String
  pub created_at : ℕ
  pub updated_at : ℕ

pub record Turn : Type 0 where
  pub id : ℕ
  pub session_id : String
  pub role : String
  pub content : String
  pub tokens : ℕ
  pub created_at : ℕ

pub record Summary : Type 0 where
  pub session_id : String
  pub summary : String
  pub updated_at : ℕ

pub record Fact : Type 0 where
  pub id : String
  pub scope_type : String
  pub scope_id : String
  pub key : String
  pub value : String
  pub tags : List String
  pub source : String
  pub created_at : ℕ
  pub expires_at : Option ℕ

pub record FactInput : Type 0 where
  pub scope_type : String
  pub scope_id : String
  pub key : String
  pub value : String
  pub tags : List String
  pub source : String
  pub expires_at : Option ℕ

-- A limit of 0 stands for every limit that is not positive.
pub record FactQuery : Type 0 where
  pub scope_type : String
  pub scope_id : String
  pub tags : List String
  pub limit : ℕ
  pub include_expired : Bool

pub record Approval : Type 0 where
  pub id : String
  pub session_id : String
  pub tool : String
  pub args_redacted : RawMessage
  pub status : String
  pub decided_by : String
  pub decided_at : Option ℕ
  pub created_at : ℕ

pub record AuditEntry : Type 0 where
  pub id : ℕ
  pub actor : String
  pub tool : String
  pub args_redacted : RawMessage
  pub result : String
  pub latency_ms : ℕ
  pub created_at : ℕ

pub record AuditInput : Type 0 where
  pub actor : String
  pub tool : String
  pub args_redacted : RawMessage
  pub result : String
  pub latency_ms : ℕ

pub record ToolInput : Type 0 where
  pub name : String
  pub scope : String
  pub impact : String

pub record ServerInput : Type 0 where
  pub name : String
  pub owner : String
  pub description : String
  pub endpoint : String
  pub transport : String
  pub auth : String
  pub tools : List ToolInput
  pub committees : List String

pub record Tool : Type 0 where
  pub id : String
  pub server_id : String
  pub name : String
  pub scope : String
  pub impact : String

-- The columns of a server.
pub record ServerRow : Type 0 where
  pub id : String
  pub name : String
  pub owner : String
  pub description : String
  pub endpoint : String
  pub transport : String
  pub auth : String
  pub lifecycle : String
  pub enabled : Bool
  pub health : String
  pub created_at : ℕ
  pub updated_at : ℕ

-- A server with its tools and committee grants.
pub record Server : Type 0 where
  pub row : ServerRow
  pub open row use *
  pub tools : List Tool
  pub committees : List String

pub record VisibleTool : Type 0 where
  pub server_name : String
  pub server_id : String
  pub tool_name : String
  pub scope : String
  pub impact : String

pub record ToolBinding : Type 0 where
  pub server : Server
  pub tool : Tool

abbrev pub scope_user : String
scope_user = "user"

abbrev pub scope_committee : String
scope_committee = "committee"

abbrev pub scope_org : String
scope_org = "org"

abbrev pub lifecycle_proposed : String
lifecycle_proposed = "proposed"

abbrev pub lifecycle_approved : String
lifecycle_approved = "approved"

abbrev pub lifecycle_deprecated : String
lifecycle_deprecated = "deprecated"

abbrev pub lifecycle_disabled : String
lifecycle_disabled = "disabled"
