-- ===== src/Gateway/Policy/Gate.antt =====
-- gateway.go: what has to hold before a tool runs.
use sl_open_bark.Common.{
  String, Bool, true, false, [], ◌∷◌, ◌++◌, Option, none, some, if◌then◌else◌, string_eq, ◌≡◌, refl,
  ap, ◌∙◌, arith,
}
use sl_open_bark.Common.Result.{Result, ok, err, Action, pure, >>=_elim}
use sl_open_bark.Store.Models.{RawMessage, Server, Tool, ToolBinding}
use sl_open_bark.Store.Db.{StoreError, not_found}
use sl_open_bark.Gateway.Limits.{Limiter}
use sl_open_bark.Gateway.Policy.{
  CallRequest, World, Store, Gateway, audit, check_rate, resolve, resolved, check_authorized, gate,
  proxy, authorized, deny, ask_limiter, of_store, wrap, Handler, rate_key, rate_limited,
}

module _ (S : Store) (redact : RawMessage → RawMessage) {A : Type 0} where
  wrap-ok :
      (r : Result StoreError A × S.State) (g : Gateway S) (a : A)
      → (wrap S redact g r).0 ≡ ok a
      → r.0 ≡ ok a
  wrap-ok (ok x, s) g a h = ground arith
  wrap-ok (err e, s) g a h = cc

  -- A call of the store succeeds in the handler as it does in the store.
  pub of_store-ok :
      (m : Action S.State StoreError A) (g : Gateway S) (a : A)
      → (of_store S redact m g).0 ≡ ok a
      → (m g.store).0 ≡ ok a
  of_store-ok m g a h = wrap-ok (m g.store) g a h

  wrap-proxied :
      (r : Result StoreError A × S.State) (g : Gateway S)
      → (wrap S redact g r).1.proxied ≡ g.proxied
  wrap-proxied (ok x, s) g = refl
  wrap-proxied (err e, s) g = refl

  pub of_store-proxied :
      (m : Action S.State StoreError A) (g : Gateway S)
      → (of_store S redact m g).1.proxied ≡ g.proxied
  of_store-proxied m g = wrap-proxied (m g.store) g

module _ (S : Store) (redact : RawMessage → RawMessage) (world : World) (req : CallRequest) where
  audit-proxied :
      (result : String) (g : Gateway S) → (audit S redact world req result g).1.proxied ≡ g.proxied
  unfolding audit
  audit-proxied result g = ground arith

  pub ask_limiter-proxied :
      (key : String) (o : Option Limiter) (g : Gateway S)
      → (ask_limiter S redact world key o g).1.proxied ≡ g.proxied
  ask_limiter-proxied key none g = refl
  ask_limiter-proxied key (some l) g = refl

  pub rate_answer : Bool → Handler S redact Unit
  rate_answer allowed =
      if allowed then pure tt else deny S redact world req "denied: rate limited" rate_limited

  pub rate_answer-proxied :
      (allowed : Bool) (g : Gateway S) → (rate_answer allowed g).1.proxied ≡ g.proxied
  unfolding rate_answer audit
  rate_answer-proxied true g = refl
  rate_answer-proxied false g = ground arith

  -- No check before the call proxies anything.
  pub check_rate-proxied : (g : Gateway S) → (check_rate S redact world req g).1.proxied ≡ g.proxied
  unfolding check_rate rate_answer
  check_rate-proxied g =
      let kept = ask_limiter-proxied (rate_key req.identity) g.limiter g in
      >>=_elim rate_answer (λ r. r.1.proxied ≡ g.proxied)
        (ask_limiter S redact world (rate_key req.identity) g.limiter) g (λ _ _. kept)
        (λ allowed _. rate_answer-proxied allowed _ ∙ kept)

  pub resolve-proxied : (g : Gateway S) → (resolve S redact world req g).1.proxied ≡ g.proxied
  unfolding resolve audit
  resolve-proxied g = ground arith

  pub check_authorized-proxied :
      (server : Server) (g : Gateway S)
      → (check_authorized S redact world req server g).1.proxied ≡ g.proxied
  unfolding check_authorized audit
  check_authorized-proxied server g = ground (arith)

  pub gate-proxied :
      (tool : Tool) (g : Gateway S) → (gate S redact world req tool g).1.proxied ≡ g.proxied
  unfolding gate audit
  gate-proxied tool g = ground (arith)

  pub proxy-proxied :
      (b : ToolBinding) (g : Gateway S)
      → (proxy S redact world req b g).1.proxied
        ≡ g.proxied ++ record { server = b.server; tool = b.tool; args = req.args } ∷ []
  unfolding proxy audit
  proxy-proxied b g = ground arith

  resolved-ok :
      (r : Result StoreError ToolBinding × S.State) (g : Gateway S) (b : ToolBinding)
      → (resolved S redact world req g r).0 ≡ ok b
      → (r.0 ≡ ok b) × ((resolved S redact world req g r).1.store ≡ r.1)
  unfolding audit
  resolved-ok (ok x, s) g b h = (ground arith, refl)
  resolved-ok (err not_found, s) g b h = absurd (ground arith)
  resolved-ok (err e, s) g b h = ground arith

  -- Resolving succeeds as it does in the store, and changes nothing else.
  pub resolve-ok :
      (g : Gateway S) (b : ToolBinding)
      → (resolve S redact world req g).0 ≡ ok b
      → ((S.resolve_tool req.server_name req.tool_name g.store).0 ≡ ok b)
        × ((resolve S redact world req g).1.store
            ≡ (S.resolve_tool req.server_name req.tool_name g.store).1)
  unfolding resolve
  resolve-ok g b h = resolved-ok (S.resolve_tool req.server_name req.tool_name g.store) g b h

  pub check_authorized-ok :
      (server : Server) (g : Gateway S) (a : Unit)
      → (check_authorized S redact world req server g).0 ≡ ok a
      → (authorized server req.identity ≡ true)
        × ((check_authorized S redact world req server g).1 ≡ g)
  unfolding check_authorized audit
  check_authorized-ok server g a h = ground arith

  rate_answer-ok :
      (allowed : Bool) (g : Gateway S) (a : Unit)
      → (rate_answer allowed g).0 ≡ ok a
      → (allowed ≡ true) × ((rate_answer allowed g).1 ≡ g)
  unfolding rate_answer audit
  rate_answer-ok true g a h = (refl, refl)
  rate_answer-ok false g a h = absurd (ground arith)

  ask_limiter-store :
      (key : String) (o : Option Limiter) (g : Gateway S)
      → (ask_limiter S redact world key o g).1.store ≡ g.store
  ask_limiter-store key none g = refl
  ask_limiter-store key (some l) g = refl

  -- A call within the limits has not touched the store.
  pub check_rate-store :
      (g : Gateway S) (a : Unit)
      → (check_rate S redact world req g).0 ≡ ok a
      → (check_rate S redact world req g).1.store ≡ g.store
  unfolding check_rate rate_answer
  check_rate-store g a =
      let ask = ask_limiter S redact world (rate_key req.identity) g.limiter in
      >>=_elim rate_answer (λ r. r.0 ≡ ok a → r.1.store ≡ g.store) ask g (λ e _ h. cc)
        (λ allowed _ h.
          ap (λ (x : Gateway S). x.store) (rate_answer-ok allowed (ask g).1 a h).1
          ∙ ask_limiter-store (rate_key req.identity) g.limiter g)
