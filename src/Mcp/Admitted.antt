-- ===== src/Mcp/Admitted.antt =====
-- main.go of the MCP servers: which requests reach the tools.
use sl_open_bark.Common.{String, ◌<>◌, string_eq, ◌≡◌, refl, ◌⊎◌, inr, arith}
use sl_open_bark.Mcp.{
  Route, mcp_route, health_route, other_route, Request, Answer, wrapped, with_auth, routed, serve,
}

-- The request is for the tools, with the token if one is configured.
abbrev pub Admitted : String → Request → Type 0
Admitted token r = (r.route ≡ mcp_route) × ((token ≡ "") ⊎ (r.authorization ≡ ("Bearer " <> token)))

module _ {S A : Type 0} (token : String) (next : S → A × S) where
  -- Either the request is admitted, and gets what the tools answer, or they are not asked.
  abbrev pub Fronted : Request → S → Answer A × S → Type 0
  Fronted r s out =
      (Admitted token r × (out ≡ wrapped (next s))) ⊎ ((¬ Admitted token r) × (out.1 ≡ s))

  with_auth-Fronted :
      (r : Request) (s : S) → r.route ≡ mcp_route → Fronted r s (with_auth token next r s)
  unfolding with_auth
  with_auth-Fronted r s h = ground arith

  routed-Fronted :
      (r : Request) (route : Route) (s : S)
      → r.route ≡ route
      → Fronted r s (routed token next r route s)
  routed-Fronted r mcp_route s h = with_auth-Fronted r s h
  routed-Fronted r health_route s h = inr (λ (m, _). ground arith, refl)
  routed-Fronted r other_route s h = inr (λ (m, _). ground arith, refl)

  pub serve-Fronted : (r : Request) (s : S) → Fronted r s (serve token next r s)
  unfolding serve
  serve-Fronted r s = routed-Fronted r r.route s refl
