-- ===== src/Dashboard/Gated.antt =====
-- server.go: what the dashboard does for a request that is not signed in.
use sl_open_bark.Common.{
  ℕ, String, Bool, true, false, Option, none, some, string_eq, ◌≡◌, ◌≢◌, ◌⊎◌, inl, inr, refl, ap,
  arith,
}
use sl_open_bark.Dashboard.{
  Store, Runtime, Decoder, Console, Handler, Request, Route, Response, healthz, login, me,
  stats_route, registry_route, audit_route, approvals_route, submit_route, lifecycle_route,
  enabled_route, decide_route, task_route, approve_route, static, problem, authed, auth, handler,
  routed, handle_login, cookie_is, handle_me,
}

-- The routes that need no cookie.
abbrev pub is_public : Route → Bool
is_public healthz = true
is_public static = true
is_public login = true
is_public me = true
is_public r = false

-- There is a token, and the request's cookie is not the token.
abbrev pub Stranger : String → Request → Type 0
Stranger token r = (token ≢ "") × ((c : String) → r.cookie ≡ some c → c ≢ token)

module _ (S : Store) (R : Runtime) (D : Decoder) where
  stranger :
      (token : String) (r : Request) (o : Option String)
      → token ≢ ""
      → r.cookie ≡ o
      → ((c : String) → r.cookie ≡ some c → c ≢ token)
      → cookie_is token o ≡ false
  stranger token r none t e h = refl
  stranger token r (some c) t e h = ground (arith, h c e)

  auth-Stranger :
      (token : String) (r : Request) (next : Handler S R D) (c : Console S R D)
      → Stranger token r
      → auth S R D token r next c ≡ (problem 401 "unauthorized", c)
  unfolding auth authed
  auth-Stranger token r next c (t, h) = ground (arith, stranger token r r.cookie t refl h)

  abbrev Refused : Route → Console S R D → Response × Console S R D → Type 0
  Refused route c out =
      (out.1 ≡ c) × ((is_public route ≡ true) ⊎ (out.0 ≡ problem 401 "unauthorized"))

  login-Refused :
      (token : String) (r : Request) (c : Console S R D)
      → Refused login c (handle_login S R D token r c)
  unfolding handle_login
  login-Refused token r c = ground arith

  auth-Refused :
      (token : String) (r : Request) (route : Route) (next : Handler S R D) (c : Console S R D)
      → Stranger token r
      → Refused route c (auth S R D token r next c)
  auth-Refused token r route next c h =
      let e = auth-Stranger token r next c h in (ap (λ x. x.1) e, inr (ap (λ x. x.0) e))

  routed-Stranger :
      (now : ℕ) (token : String) (r : Request) (route : Route) (c : Console S R D)
      → Stranger token r
      → Refused route c (routed S R D now token r route c)
  unfolding handle_me
  routed-Stranger now token r healthz c h = (refl, inl refl)
  routed-Stranger now token r static c h = (refl, inl refl)
  routed-Stranger now token r login c h = login-Refused token r c
  routed-Stranger now token r me c h = (refl, inl refl)
  routed-Stranger now token r stats_route c h = auth-Refused token r stats_route _ c h
  routed-Stranger now token r registry_route c h = auth-Refused token r registry_route _ c h
  routed-Stranger now token r audit_route c h = auth-Refused token r audit_route _ c h
  routed-Stranger now token r approvals_route c h = auth-Refused token r approvals_route _ c h
  routed-Stranger now token r submit_route c h = auth-Refused token r submit_route _ c h
  routed-Stranger now token r (lifecycle_route name) c h =
      auth-Refused token r (lifecycle_route name) _ c h
  routed-Stranger now token r (enabled_route name) c h =
      auth-Refused token r (enabled_route name) _ c h
  routed-Stranger now token r (decide_route id) c h = auth-Refused token r (decide_route id) _ c h
  routed-Stranger now token r (task_route id) c h = auth-Refused token r (task_route id) _ c h
  routed-Stranger now token r (approve_route id) c h = auth-Refused token r (approve_route id) _ c h

  -- A request without the maintainers' cookie, where a token is configured, changes neither the store
  -- nor the runtime, whatever its route; and every route but the page, the health check, the login and
  -- the session's state answers 401.
  pub handler-Stranger :
      (now : ℕ) (token : String) (r : Request) (c : Console S R D)
      → Stranger token r
      → ((handler S R D now token r c).1 ≡ c)
        × ((is_public r.route ≡ true)
            ⊎ ((handler S R D now token r c).0 ≡ problem 401 "unauthorized"))
  unfolding handler
  handler-Stranger now token r c h = routed-Stranger now token r r.route c h
