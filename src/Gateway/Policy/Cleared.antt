-- ===== src/Gateway/Policy/Cleared.antt =====
-- gateway.go over the repository: a tool runs only for a caller that the tables clear.
use sl_open_bark.Common.{
  String, Bool, true, false, ◌&&◌, List, [], ◌∷◌, ◌++◌, if◌then◌else◌, ◌==◌, contains, string_eq,
  ◌≡◌, ◌≢◌, refl, ap, ◌∙◌, ◌⊎◌, inl, inr, arith, Bool-cases,
}
use mathlib.Core.Path.{subst}
use sl_open_bark.Common.Lists.{filter, sort_by}
use sl_open_bark.Common.Members.{Elem, filter-Elem, sort_by-Elem}
use sl_open_bark.Common.Result.{ok, pure, ◌>>=◌, >>=_elim, >>=-ok}
use sl_open_bark.Store.Models.{RawMessage, Server, Tool, ToolBinding, Approval, lifecycle_approved}
use sl_open_bark.Store.Db.{Db, Tables}
use sl_open_bark.Store.Db.Laws.{select-ok}
use sl_open_bark.Store.Governance.{
  status_approved, list_approvals_by_session, of_session, newest_first,
}
use sl_open_bark.Store.Registry.Resolve.{Bound, resolve_tool-Bound, resolve_tool-tables}
use sl_open_bark.Gateway.Policy.{
  Identity, CallRequest, World, repository, Gateway, GatewayError, Proxied, audit, has_approval,
  check_rate, resolve, check_authorized, ask_approval, require_approval, gate, call, authorized,
  has_approved, shares, of_store,
}
use sl_open_bark.Gateway.Policy.Gate.{
  of_store-ok, resolve-ok, check_authorized-ok, check_rate-store, check_rate-proxied,
  resolve-proxied, check_authorized-proxied, gate-proxied, proxy-proxied,
}

-- A human has approved the tool for the session of the request.
pub record Approved (t : Tables) (req : CallRequest) : Type 0 where
  pub approval : Approval
  pub held : Elem approval t.approvals
  pub in_session : approval.session_id ≡ req.session_id
  pub of_tool : approval.tool ≡ req.tool_name
  pub granted : approval.status ≡ status_approved

-- What the tables have to say for a call to be proxied.
pub record Cleared (t : Tables) (req : CallRequest) (b : ToolBinding) : Type 0 where
  pub bound : Bound t req.server_name req.tool_name b
  pub is_approved : b.server.lifecycle ≡ lifecycle_approved
  pub is_enabled : b.server.enabled ≡ true
  pub committee : String
  pub is_member : Elem committee req.identity.committees
  pub is_granted : Elem (record { server_id = b.server.id; committee = committee }) t.grants
  pub gated : (b.tool.impact ≢ "high") ⊎ Approved t req

pub contains-Elem : (xs : List String) (a : String) → contains xs a ≡ true → Elem a xs
contains-Elem [] a h = cc
contains-Elem (x ∷ xs) a h = ground (arith, contains-Elem xs a)

pub shares-Elem :
    (cs granted : List String)
    → shares cs granted ≡ true
    → (c : String) × Elem c cs × Elem c granted
shares-Elem [] granted h = cc
shares-Elem (c ∷ cs) granted h = elim (Bool-cases (contains granted c)) [
  | inl here ↦ (c, inl refl, contains-Elem granted c here)
  | inr later ↦ let (d, m, k) = shares-Elem cs granted (ground arith) in (d, inr m, k)
]

authorized-shares :
    (s : Server) (id : Identity)
    → authorized s id ≡ true
    → (s.lifecycle ≡ lifecycle_approved)
      × (s.enabled ≡ true)
      × (shares id.committees s.committees ≡ true)
unfolding authorized
authorized-shares s id h = ground arith

has_approved-Elem :
    (tool : String) (xs : List Approval)
    → has_approved tool xs ≡ true
    → (a : Approval) × Elem a xs × (a.tool ≡ tool) × (a.status ≡ status_approved)
has_approved-Elem tool [] h = cc
has_approved-Elem tool (a ∷ xs) h =
    elim (Bool-cases (a.tool == tool && a.status == status_approved)) [
      | inl here ↦ (a, inl refl, ground arith, ground arith)
      | inr later ↦ let (d, m, k, e) = has_approved-Elem tool xs (ground arith) in (d, inr m, k, e)
    ]

module _ (redact : RawMessage → RawMessage) (world : World) (req : CallRequest) where
  ask_approval-fails :
      (g : Gateway repository) (a : Unit) → (ask_approval repository redact world req g).0 ≢ ok a
  unfolding ask_approval audit
  ask_approval-fails g a h = ground arith

  listed-Approved :
      (db : Db) (xs : List Approval)
      → (list_approvals_by_session req.session_id db).0 ≡ ok xs
      → has_approved req.tool_name xs ≡ true
      → Approved db.tables req
  unfolding list_approvals_by_session
  listed-Approved db xs h k =
      let same =
        select-ok "list approvals"
          (λ t env. sort_by newest_first (filter (of_session req.session_id) t.approvals)) db xs
          h in
      let (a, m, tool, status) = has_approved-Elem req.tool_name xs k in
      let (held, own) =
        filter-Elem (of_session req.session_id) a db.approvals
          (sort_by-Elem newest_first a _ (subst (Elem a) same m)) in
      record {
        approval = a;
        held = held;
        in_session = ground arith;
        of_tool = tool;
        granted = status;
      }

  has_approval-Approved :
      (g : Gateway repository)
      → (has_approval repository redact req.session_id req.tool_name g).0 ≡ ok true
      → Approved g.store.tables req
  unfolding has_approval
  has_approval-Approved g h = elim (Bool-cases (req.session_id == "")) [
    | inl none_ ↦
        let k : (pure {S = Gateway repository} {E = GatewayError} false g).0 ≡ ok true =
          rw none_ at h in
        cc
    | inr some_ ↦
        let listing = of_store repository redact (list_approvals_by_session req.session_id) in
        let k : ((listing >>= λ xs. pure (has_approved req.tool_name xs)) g).0 ≡ ok true =
          rw some_ at h in
        let (xs, lh, found) = >>=-ok _ listing g true k in
        listed-Approved g.store xs
          (of_store-ok repository redact (list_approvals_by_session req.session_id) g xs lh)
          (ground arith)
  ]

  asked-true :
      (approved : Bool) (g : Gateway repository) (a : Unit)
      → ((if approved then pure tt else ask_approval repository redact world req) g).0 ≡ ok a
      → approved ≡ true
  asked-true true g a h = refl
  asked-true false g a h = absurd (ask_approval-fails g a h)

  gate-Approved :
      (tool : Tool) (g : Gateway repository) (a : Unit)
      → (gate repository redact world req tool g).0 ≡ ok a
      → (tool.impact ≢ "high") ⊎ Approved g.store.tables req
  unfolding gate
  gate-Approved tool g a h = elim (Bool-cases (tool.impact == "high")) [
    | inl high ↦
        let k : (require_approval repository redact world req g).0 ≡ ok a = rw high at h in
        let (approved, ah, rest) =
          >>=-ok _ (has_approval repository redact req.session_id req.tool_name) g a k in
        inr (has_approval-Approved g (ah ∙ ap ok (asked-true approved _ a rest)))
    | inr low ↦ inl (λ e. ground arith)
  ]

  clear :
      (t : Tables) (b : ToolBinding)
      → Bound t req.server_name req.tool_name b
      → authorized b.server req.identity ≡ true
      → (b.tool.impact ≢ "high") ⊎ Approved t req
      → Cleared t req b
  clear t b bound h gated =
      let (lifecycle, enabled, shared) = authorized-shares b.server req.identity h in
      let (c, member, granted) = shares-Elem req.identity.committees b.server.committees shared in
      record {
        bound = bound;
        is_approved = lifecycle;
        is_enabled = enabled;
        committee = c;
        is_member = member;
        is_granted = bound.server_held.granted c granted;
        gated = gated;
      }

  -- The checks of a call, each from the state that the one before it left.
  pub checks-Cleared :
      (t : Tables) (g : Gateway repository) (b : ToolBinding) (a c : Unit)
      → g.store.tables ≡ t
      → (resolve repository redact world req g).0 ≡ ok b
      → let g₂ = (resolve repository redact world req g).1 in
        (check_authorized repository redact world req b.server g₂).0 ≡ ok a
        → let g₃ = (check_authorized repository redact world req b.server g₂).1 in
          (gate repository redact world req b.tool g₃).0 ≡ ok c → Cleared t req b
  checks-Cleared t g b a c same found allowed gated =
      let (in_store, after) = resolve-ok repository redact world req g b found in
      let g₂ = (resolve repository redact world req g).1 in
      let (is_authorized, kept) =
        check_authorized-ok repository redact world req b.server g₂ a allowed in
      let tables : (check_authorized repository redact world req b.server g₂).1.store.tables ≡ t =
        ap (λ (x : Gateway repository). x.store.tables) kept
        ∙ ap (λ (d : Db). d.tables) after
        ∙ resolve_tool-tables req.server_name req.tool_name g.store
        ∙ same in
      clear t b
        (subst (λ (x : Tables). Bound x req.server_name req.tool_name b) same
          (resolve_tool-Bound req.server_name req.tool_name g.store b in_store))
        is_authorized
        (subst (λ (x : Tables). (b.tool.impact ≢ "high") ⊎ Approved x req) tables
          (gate-Approved b.tool _ c gated))

  -- What a call does to the trace, and what it had to find in the tables to do so.
  abbrev pub Outcome : Gateway repository → Gateway repository → Type 0
  Outcome g after =
      (after.proxied ≡ g.proxied)
      ⊎ ((b : ToolBinding) × (after.proxied
            ≡ g.proxied ++ record { server = b.server; tool = b.tool; args = req.args } ∷ [])
          × Cleared g.store.tables req b)

  -- A call proxies nothing, or it proxies one call, to the tool that the registry holds under the
  -- names of the request; then the tool's server is approved and enabled, one of the caller's
  -- committees is granted the server, and a tool of high impact has an approved approval for the
  -- session of the request.
  pub call-Cleared : (g : Gateway repository) → Outcome g (call repository redact world req g).1
  unfolding call
  call-Cleared g =
      let rate = check_rate repository redact world req in
      let find = resolve repository redact world req in
      let g₁ = (rate g).1 in
      let g₂ = (find g₁).1 in
      let p₁ = check_rate-proxied repository redact world req g in
      let p₂ = resolve-proxied repository redact world req g₁ ∙ p₁ in
      >>=_elim _ (λ r. Outcome g r.1) rate g (λ _ _. inl p₁)
        λ a₁ h₁.
          >>=_elim _ (λ r. Outcome g r.1) find g₁ (λ _ _. inl p₂)
            λ b h₂.
              let check = check_authorized repository redact world req b.server in
              let g₃ = (check g₂).1 in
              let p₃ = check_authorized-proxied repository redact world req b.server g₂ ∙ p₂ in
              >>=_elim _ (λ r. Outcome g r.1) check g₂ (λ _ _. inl p₃)
                λ a₃ h₃.
                  let gated = gate repository redact world req b.tool in
                  let p₄ = gate-proxied repository redact world req b.tool g₃ ∙ p₃ in
                  >>=_elim _ (λ r. Outcome g r.1) gated g₃ (λ _ _. inl p₄)
                    λ a₄ h₄. inr (
                      b,
                      proxy-proxied repository redact world req b (gated g₃).1
                          ∙ ap
                              (λ (l : List Proxied).
                                l
                                ++ record { server = b.server; tool = b.tool; args = req.args }
                                  ∷ [])
                              p₄,
                      checks-Cleared g.store.tables g₁ b a₃ a₄
                          (ap (λ (d : Db). d.tables)
                            (check_rate-store repository redact world req g a₁ h₁))
                          h₂ h₃ h₄,
                    )
