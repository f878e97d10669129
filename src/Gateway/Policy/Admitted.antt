-- ===== src/Gateway/Policy/Admitted.antt =====
-- gateway.go over the repository: a call that the tables clear does run, and what an approval covers.
use sl_open_bark.Common.{
  true, false, [], ◌∷◌, ◌++◌, none, if◌then◌else◌, ◌==◌, string_eq, ◌≡◌, ◌≢◌, refl, sym, ap, ◌∙◌,
  ◌⊎◌, inl, inr, arith, if_elim,
}
use mathlib.Core.Path.{subst}
use sl_open_bark.Common.Members.{Elem}
use sl_open_bark.Common.Result.{Result, ok, Action, pure, ◌>>=◌, continue_with}
use sl_open_bark.Store.Models.{RawMessage, Server, Tool, ToolBinding, Approval}
use sl_open_bark.Store.Governance.{status_approved, list_approvals_by_session}
use sl_open_bark.Store.Registry.{resolve_tool}
use sl_open_bark.Store.Registry.Quiet.{Quiet, resolve_tool-db}
use sl_open_bark.Gateway.Policy.{
  CallRequest, World, Gateway, repository, call, check_rate, resolve, resolved, check_authorized,
  authorized, gate, require_approval, has_approval, ask_approval, proxy,
}
use sl_open_bark.Gateway.Policy.Approved.{has_approval-Recorded}
use sl_open_bark.Gateway.Policy.Gate.{proxy-proxied}

-- A part that succeeds hands its result on.
>>=-step :
    {S E A B : Type 0} (m : Action S E A) (f : A → Action S E B) (s t : S) (a : A)
    → m s ≡ (ok a, t)
    → (m >>= f) s ≡ f a t
>>=-step m f s t a h = ap (continue_with f) h

-- An approval that lets the call through: of its session, for a tool of its name.
pub record Granted (req : CallRequest) (g : Gateway repository) : Type 0 where
  pub approval : Approval
  pub held : Elem approval g.store.tables.approvals
  pub approved : approval.status ≡ status_approved
  pub in_session : approval.session_id ≡ req.session_id
  pub of_tool : approval.tool ≡ req.tool_name
  pub with_session : req.session_id ≢ ""

module _ (redact : RawMessage → RawMessage) (world : World) (req : CallRequest)
    (g : Gateway repository) where
  check_rate-ok : g.limiter ≡ none → check_rate repository redact world req g ≡ (ok tt, g)
  unfolding check_rate
  check_rate-ok h = ground arith

  resolve-Quiet :
      (b : ToolBinding)
      → Quiet g.store
      → (resolve_tool req.server_name req.tool_name g.store).0 ≡ ok b
      → resolve repository redact world req g ≡ (ok b, g)
  unfolding resolve
  resolve-Quiet b quiet h =
      let both : resolve_tool req.server_name req.tool_name g.store ≡ (ok b, g.store) =
        λ i. (h i, resolve_tool-db g.store quiet req.server_name req.tool_name i) in
      ap (resolved repository redact world req g) both

  check_authorized-ok :
      (server : Server)
      → authorized server req.identity ≡ true
      → check_authorized repository redact world req server g ≡ (ok tt, g)
  unfolding check_authorized
  check_authorized-ok server h = rw h refl

  has_approval-state :
      req.session_id ≢ ""
      → Quiet g.store
      → (has_approval repository redact req.session_id req.tool_name g).1 ≡ g
  unfolding has_approval list_approvals_by_session
  has_approval-state named quiet =
      let differ : (req.session_id == "") ≡ false = ground arith in rw (differ, quiet) refl

  require_approval-ok :
      Quiet g.store → Granted req g → require_approval repository redact world req g ≡ (ok tt, g)
  unfolding require_approval
  require_approval-ok quiet a =
      let asked = has_approval repository redact req.session_id req.tool_name in
      let found : (asked g).0 ≡ ok true =
        subst (λ x. (has_approval repository redact x req.tool_name g).0 ≡ ok true) a.in_session
          (subst (λ x. (has_approval repository redact a.approval.session_id x g).0 ≡ ok true)
            a.of_tool
            (has_approval-Recorded redact a.approval g a.held a.approved
              (λ e. a.with_session (sym a.in_session ∙ e)) quiet)) in
      >>=-step asked
        (λ approved. if approved then pure tt else ask_approval repository redact world req) g g
        true (λ i. (found i, has_approval-state a.with_session quiet i))

  gate-ok :
      (tool : Tool)
      → Quiet g.store
      → (tool.impact ≢ "high") ⊎ Granted req g
      → gate repository redact world req tool g ≡ (ok tt, g)
  unfolding gate
  gate-ok tool quiet (inl low) =
      let differ : (tool.impact == "high") ≡ false = ground arith in rw differ refl
  gate-ok tool quiet (inr a) =
      if_elim (λ m. m g ≡ (ok tt, g)) (tool.impact == "high")
        (require_approval repository redact world req) (pure tt) (λ _. require_approval-ok quiet a)
        (λ _. refl)

  -- Where no statement fails and no limit is set: a call whose tool the registry has, to a server that
  -- the caller may use, is proxied, with the arguments of this call, if the tool's impact is not high,
  -- or if any approved approval of the session is for a tool of that name: whatever the arguments, the
  -- server and the caller were that it was asked for with, and however often it has been used.
  pub call-proxied :
      (b : ToolBinding)
      → g.limiter ≡ none
      → Quiet g.store
      → (resolve_tool req.server_name req.tool_name g.store).0 ≡ ok b
      → authorized b.server req.identity ≡ true
      → (b.tool.impact ≢ "high") ⊎ Granted req g
      → (call repository redact world req g).1.proxied
        ≡ g.proxied ++ record { server = b.server; tool = b.tool; args = req.args } ∷ []
  unfolding call
  call-proxied b unlimited quiet found allowed cleared =
      let rate = check_rate repository redact world req in
      let find = resolve repository redact world req in
      let check = check_authorized repository redact world req b.server in
      let gated = gate repository redact world req b.tool in
      let send : ToolBinding → Action _ _ _ = proxy repository redact world req in
      ap (λ (r : Result _ _ × Gateway repository). r.1.proxied)
        (>>=-step rate _ g g tt (check_rate-ok unlimited)
          ∙ >>=-step find _ g g b (resolve-Quiet b quiet found)
          ∙ >>=-step check _ g g tt (check_authorized-ok b.server allowed)
          ∙ >>=-step gated (λ _. send b) g g tt (gate-ok b.tool quiet cleared))
      ∙ proxy-proxied repository redact world req b g
