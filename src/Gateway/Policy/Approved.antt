-- ===== src/Gateway/Policy/Approved.antt =====
-- gateway.go: an approval in the session's table opens the gate.
use sl_open_bark.Common.{true, false, List, [], ◌∷◌, ◌==◌, string_eq, ◌≡◌, ◌≢◌, inl, inr, ap, arith}
use sl_open_bark.Common.Members.{Elem, Elem-filter, Elem-sort_by}
use sl_open_bark.Common.Result.{ok}
use sl_open_bark.Store.Models.{Approval, RawMessage}
use sl_open_bark.Store.Governance.{
  list_approvals_by_session, newest_first, of_session, status_approved,
}
use sl_open_bark.Gateway.Policy.{Gateway, has_approved, has_approval, repository as gateway_store}

Elem-has_approved :
    (a : Approval) (as' : List Approval)
    → Elem a as'
    → a.status ≡ status_approved
    → has_approved a.tool as' ≡ true
Elem-has_approved a [] m h = absurd m
Elem-has_approved a (b ∷ bs) (inl e) h = rw e (ground (arith, ap (λ (x : Approval). x.status) e))
Elem-has_approved a (b ∷ bs) (inr m) h = ground (arith, Elem-has_approved a bs m h)

-- The gateway's read, where it does not fail.
pub has_approval-Recorded :
    (redact : RawMessage → RawMessage) (a : Approval) (g : Gateway gateway_store)
    → Elem a g.store.tables.approvals
    → a.status ≡ status_approved
    → a.session_id ≢ ""
    → g.store.env.faults ≡ []
    → (has_approval gateway_store redact a.session_id a.tool g).0 ≡ ok true
unfolding has_approval list_approvals_by_session
has_approval-Recorded redact a g m approved session faults =
    let sorted =
      Elem-sort_by newest_first a _
        (Elem-filter (of_session a.session_id) a g.store.tables.approvals m (ground arith)) in
    rw (differ, faults) (ap ok (Elem-has_approved a _ sorted approved))
  where
    differ : (a.session_id == "") ≡ false
    differ = ground arith
