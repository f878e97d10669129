-- ===== src/Gateway/Policy/Decided.antt =====
-- gateway.go over the store's history: who let a tool of high impact run.
use sl_open_bark.Common.{
  List, [], ◌∷◌, ◌++◌, string_eq, ◌≡◌, ◌≢◌, ◌⊎◌, inl, inr, ap, sym, apart, refl, ◌∙◌,
}
use mathlib.Core.Path.{subst}
use sl_open_bark.Common.Members.{Elem}
use sl_open_bark.Store.Models.{RawMessage, Approval, ToolBinding}
use sl_open_bark.Store.Db.{Db, Tables}
use sl_open_bark.Store.Governance.{status_approved, status_pending}
use sl_open_bark.Store.History.{Operation, request, decision, history}
use sl_open_bark.Store.History.Warranted.{Known, history-Known}
use sl_open_bark.Gateway.Policy.{CallRequest, World, Gateway, repository, call}
use sl_open_bark.Gateway.Policy.Cleared.{call-Cleared}

-- An approval of the tables was asked for, with the tool and the session of the call, and decided
-- by the person that it names.
pub record Warranted (ops : List Operation) (t : Tables) (req : CallRequest) : Type 0 where
  pub args : RawMessage
  pub asked : Elem (request req.session_id req.tool_name args) ops
  pub approval : Approval
  pub held : Elem approval t.approvals
  pub in_session : approval.session_id ≡ req.session_id
  pub of_tool : approval.tool ≡ req.tool_name
  pub approved : Elem (decision approval.id status_approved approval.decided_by) ops

differ : status_approved ≢ status_pending
unfolding string_eq
differ e = apart status_approved status_pending refl e

Known-Warranted :
    (ops : List Operation) (t u : Tables) (req : CallRequest) (a : Approval)
    → t.approvals ≡ []
    → Elem a u.approvals
    → a.session_id ≡ req.session_id
    → a.tool ≡ req.tool_name
    → a.status ≡ status_approved
    → Known ops t a
    → Warranted ops u req
Known-Warranted ops t u req a none' h s o p (b, inl held, like, done) = absurd (rw none' at held)
Known-Warranted ops t u req a none' h s o p (b, inr (args, m, e, pending), like, inl (same, by)) =
    absurd (differ (sym p ∙ same ∙ pending))
Known-Warranted ops t u req a none' h s o p (b, inr (args, m, e, pending), like, inr d) = record {
  args = args;
  asked =
      subst (λ x. Elem (request x req.tool_name args) ops) (like.1 ∙ s)
        (subst (λ x. Elem (request b.session_id x args) ops) (like.2 ∙ o) m);
  approval = a;
  held = h;
  in_session = s;
  of_tool = o;
  approved = subst (λ x. Elem (decision a.id x a.decided_by) ops) p d;
}

module _ (redact : RawMessage → RawMessage) (world : World) (req : CallRequest) where
  abbrev pub Released : List Operation → Gateway repository → Gateway repository → Type 0
  Released ops g after =
      (after.proxied ≡ g.proxied)
      ⊎ ((b : ToolBinding) × (after.proxied
            ≡ g.proxied ++ record { server = b.server; tool = b.tool; args = req.args } ∷ [])
          × ((b.tool.impact ≢ "high") ⊎ Warranted ops g.store.tables req))

  -- Where the store has come, by any history of its operations, from one without approvals: a call
  -- proxies nothing, or it proxies one call; and if the tool's impact is high, the tables hold an
  -- approval with the session and the tool's name of the call, the history a request for such an
  -- approval, and a decision of this approval's id as approved, by the person that the row names.
  pub call-Released :
      (ops : List Operation) (start : Db) (g : Gateway repository)
      → start.tables.approvals ≡ []
      → g.store ≡ history ops start
      → Released ops g (call repository redact world req g).1
  call-Released ops start g empty' same = elim (call-Cleared redact world req g) [
    | inl nothing ↦ inl nothing
    | inr (b, once, cleared) ↦ inr (
      b,
      once,
      elim cleared.gated [
        | inl low ↦ inl low
        | inr ap' ↦ inr (
            Known-Warranted ops start.tables g.store.tables req ap'.approval empty' ap'.held
              ap'.in_session ap'.of_tool ap'.granted
              (history-Known ops start ap'.approval
                (rw (ap (λ (d : Db). d.tables) same) at ap'.held)))
      ],
    )
  ]
