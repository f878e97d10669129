-- ===== src/Dashboard/Approved.antt =====
-- api.go, governance.go and gateway.go: a decision of the dashboard reaches the gateway's gate.
use sl_open_bark.Common.{ℕ, String, true, [], some, string_eq, ◌≡◌, ◌≢◌, refl, ap, sym, ◌∙◌, arith}
use sl_open_bark.Common.Result.{Result, ok, err}
use sl_open_bark.Store.Models.{Approval, RawMessage}
use sl_open_bark.Store.Db.{Db, StoreError}
use sl_open_bark.Store.Governance.{status_approved, decide_approval}
use sl_open_bark.Store.Governance.Decided.{Recorded, decide_approval-Recorded}
use sl_open_bark.Gateway.Policy.{Gateway, has_approval, repository as gateway_store}
use sl_open_bark.Gateway.Policy.Approved.{has_approval-Recorded}
use sl_open_bark.Dashboard.{
  Runtime, Decoder, Decision, Console, Handler, Request, decide_route, decided, repository, auth,
  answered, handler, handle_decide,
}

module _ (R : Runtime) (D : Decoder) where
  -- An answer that the decision is taken is the store's, and its state is kept.
  answered-ok :
      (c : Console repository R D) (r : Result StoreError Approval × Db) (a : Approval)
      → (answered repository R D decided c r).0 ≡ decided a
      → (r.0 ≡ ok a) × ((answered repository R D decided c r).1.store ≡ r.1)
  answered-ok c (ok b, db) a h = (cc, refl)
  answered-ok c (err e, db) a h = cc

  handle_decide-ok :
      (id : String) (r : Request) (c : Console repository R D) (a : Approval) (d : Decision)
      → D.decision r.body ≡ some d
      → (handle_decide repository R D id r c).0 ≡ decided a
      → Recorded d.status a (handle_decide repository R D id r c).1.store.tables
  unfolding handle_decide
  handle_decide-ok id r c a d e = rw e λ h.
      let (taken, same) = answered-ok c (decide_approval id d.status d.decided_by c.store) a h in
      rw same (decide_approval-Recorded id d.status d.decided_by c.store a taken)

  auth-decided :
      (token : String) (r : Request) (next : Handler repository R D) (c : Console repository R D)
      (a : Approval)
      → (auth repository R D token r next c).0 ≡ decided a
      → auth repository R D token r next c ≡ next c
  unfolding auth
  auth-decided token r next c a h = ground arith

  handler-Recorded :
      (now : ℕ) (token : String) (r : Request) (c : Console repository R D) (id : String)
      (d : Decision) (a : Approval)
      → r.route ≡ decide_route id
      → D.decision r.body ≡ some d
      → (handler repository R D now token r c).0 ≡ decided a
      → Recorded d.status a (handler repository R D now token r c).1.store.tables
  unfolding handler
  handler-Recorded now token r c id d a route e = rw route λ h.
      let same = auth-decided token r (handle_decide repository R D id r) c a h in
      rw same (handle_decide-ok id r c a d e (ap (λ x. x.0) (sym same) ∙ h))

  -- Once the dashboard answers a decision of "approved" with the approval, and the approval is of a
  -- session, the gateway finds that the session has an approval for the tool, if the tables are still
  -- those that the decision left and the gateway's read does not fail.
  pub handler-has_approval :
      (redact : RawMessage → RawMessage) (now : ℕ) (token : String) (r : Request)
      (c : Console repository R D) (id : String) (d : Decision) (a : Approval)
      (g : Gateway gateway_store)
      → r.route ≡ decide_route id
      → D.decision r.body ≡ some d
      → d.status ≡ status_approved
      → (handler repository R D now token r c).0 ≡ decided a
      → a.session_id ≢ ""
      → g.store.tables ≡ (handler repository R D now token r c).1.store.tables
      → g.store.env.faults ≡ []
      → (has_approval gateway_store redact a.session_id a.tool g).0 ≡ ok true
  handler-has_approval redact now token r c id d a g route e s h sess same faults =
      let (m, status) = handler-Recorded now token r c id d a route e h in
      has_approval-Recorded redact a g (rw same m) (status ∙ s) sess faults
