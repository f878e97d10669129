-- ===== src/Mcp.antt =====
-- services/session-memory/cmd/memory-mcp/main.go, mcp-servers/finance-rules/cmd/server/main.go and
-- mcp-servers/google-workspace/cmd/server/main.go: the HTTP front that the MCP servers share. The MCP
-- library is what it does with a request that reaches it.
pub mod Admitted
use sl_open_bark.Common.{String, ◌<>◌, Bool, not, ◌&&◌, if◌then◌else◌, ◌==◌, string_eq}

pub data Route : Type 0 where
  mcp_route health_route other_route : Route

pub record Request : Type 0 where
  pub route : Route
  pub authorization : String

pub data Answer (A : Type 0) : Type 0 where
  unauthorized healthy no_route : Answer A
  answered : A → Answer A

module _ {S A : Type 0} where
  abbrev pub wrapped : A × S → Answer A × S
  wrapped (a, s) = (answered a, s)

  -- `withAuth`
  unfoldable pub with_auth : String → (S → A × S) → Request → S → Answer A × S
  with_auth token next r s =
      if not (token == "") && not (r.authorization == ("Bearer " <> token))
      then (unauthorized, s)
      else wrapped (next s)

  abbrev pub routed : String → (S → A × S) → Request → Route → S → Answer A × S
  routed token next r mcp_route s = with_auth token next r s
  routed token next r health_route s = (healthy, s)
  routed token next r other_route s = (no_route, s)

  -- The mux.
  unfoldable pub serve : String → (S → A × S) → Request → S → Answer A × S
  unfolding with_auth
  serve token next r s = routed token next r r.route s
