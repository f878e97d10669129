-- ===== src/Gateway/Policy/Audited.antt =====
-- gateway.go over any store: the audit rows that a call asks for.
use sl_open_bark.Common.{
  ℕ, String, Bool, false, List, [], ◌∷◌, ◌++◌, ◌<>◌, Option, none, some, ◌==◌, string_eq, ◌≡◌, refl,
  ap, ◌∙◌, ◌⊎◌, inl, inr, if_elim,
}
use sl_open_bark.Common.Result.{Result, ok, err, Action, pure, raise, continue_with, ◌>>=◌}
use sl_open_bark.Store.Models.{
  RawMessage, AuditInput, AuditEntry, Approval, Server, Tool, ToolBinding,
}
use sl_open_bark.Store.Db.{
  StoreError, not_found, invalid_scope, name_and_endpoint_required, database,
}
use sl_open_bark.Gateway.Limits.{Limiter}
use sl_open_bark.Gateway.Policy.{
  CallRequest, CallResult, GatewayError, store_failed, World, Store, Gateway, Handler, audit,
  audit_written, deny, wrap, of_store, check_rate, rate_key, ask_limiter, resolve, resolved,
  check_authorized, authorized, has_approval, has_approved, ask_approval, require_approval, gate,
  outcome, answered, send, proxy, call, rate_limited, unauthorized, unknown_tool, approval_required,
  downstream,
}

-- A store that also keeps a log of the audit rows it was asked to write, written or not.
module _ (S : Store) where
  abbrev logging :
      {A : Type 0} → Action S.State StoreError A → Action (S.State × List AuditInput) StoreError A
  logging m (s, log) = let (r, t) = m s in (r, (t, log))

  abbrev pub logged : Store
  logged = record {
    State = S.State × List AuditInput;
    register_server = λ input. logging (S.register_server input);
    list_visible_tools = λ committees. logging (S.list_visible_tools committees);
    resolve_tool = λ server tool. logging (S.resolve_tool server tool);
    create_approval = λ session tool args. logging (S.create_approval session tool args);
    list_approvals_by_session = λ session. logging (S.list_approvals_by_session session);
    write_audit = λ input st. let (r, t) = S.write_audit input st.0 in (r, (t, st.1 ++ input ∷ []));
  }

module _ (S : Store) (redact : RawMessage → RawMessage) (world : World) (req : CallRequest) where
  abbrev L : Store
  L = logged S

  abbrev pub log : Gateway L → List AuditInput
  log g = g.store.1

  -- The row of this call with the result `result`.
  abbrev pub row : String → AuditInput
  row result = record {
    actor = req.identity.subject;
    tool = req.server_name <> "/" <> req.tool_name;
    args_redacted = redact req.args;
    result = result;
    latency_ms = world.latency_ms;
  }

  -- One row was asked for, with the result `result`.
  abbrev pub Row : Gateway L → String → Gateway L → Type 0
  Row g result after = log after ≡ log g ++ row result ∷ []

  -- What the rows of a call that ends with this error are to say. An error of the store has no row.
  abbrev pub Says : GatewayError → String → Type 0
  Says rate_limited result = result ≡ "denied: rate limited"
  Says unknown_tool result = result ≡ "denied: unknown tool"
  Says unauthorized result = result ≡ "denied: unauthorized"
  Says (approval_required id tool) result = result ≡ "gated: awaiting approval"
  Says (downstream e id) result = result ≡ "error: " <> e
  Says (store_failed f) result = ⊥

  -- The one row that was asked for says how the call failed, or the store failed and there is none.
  abbrev pub Told : Gateway L → GatewayError → Gateway L → Type 0
  Told g e after =
      ((result : String) × Says e result × Row g result after)
      ⊎ ((f : StoreError) × (e ≡ store_failed f) × (log after ≡ log g))

  -- A part of a call that goes on has asked for no row; one that ends the call has asked for one, or
  -- the store failed.
  abbrev Stage : {A : Type 0} → Gateway L → Result GatewayError A × Gateway L → Type 0
  Stage g (ok a, after) = log after ≡ log g
  Stage g (err e, after) = Told g e after

  abbrev pub Ends : Gateway L → Result GatewayError CallResult × Gateway L → Type 0
  Ends g (ok a, after) = Row g "ok" after
  Ends g (err e, after) = Told g e after

  Stage-bind :
      {A B : Type 0} (g : Gateway L) (out : Result GatewayError A × Gateway L)
      (f : A → Handler L redact B)
      → Stage g out
      → ((a : A) (h : Gateway L) → log h ≡ log g → Stage g (f a h))
      → Stage g (continue_with f out)
  Stage-bind g (ok a, h) f s k = k a h s
  Stage-bind g (err e, h) f s k = s

  Ends-bind :
      {A : Type 0} (g : Gateway L) (out : Result GatewayError A × Gateway L)
      (f : A → Handler L redact CallResult)
      → Stage g out
      → ((a : A) (h : Gateway L) → log h ≡ log g → Ends g (f a h))
      → Ends g (continue_with f out)
  Ends-bind g (ok a, h) f s k = k a h s
  Ends-bind g (err e, h) f s k = s

  written-store :
      (g : Gateway L) (out : Result StoreError AuditEntry × L.State)
      → (audit_written L redact g out).1.store ≡ out.1
  written-store g (ok e, s) = refl
  written-store g (err e, s) = refl

  audit-Row : (g : Gateway L) (result : String) → Row g result (audit L redact world req result g).1
  unfolding audit
  audit-Row g result = ap (λ (s : L.State). s.1) (written-store g _)

  denied :
      (A : Type 0) (g h : Gateway L) (reason : String) (e : GatewayError)
      (out : Result StoreError AuditEntry × L.State)
      → Says e reason
      → log h ≡ log g
      → out.1.1 ≡ log h ++ row reason ∷ []
      → Stage {A = A} g (continue_with (λ _. raise e) (audit_written L redact h out))
  denied A g h reason e (ok x, s) says same k =
      inl (reason, says, k ∙ ap (λ l. l ++ row reason ∷ []) same)
  denied A g h reason e (err x, s) says same k =
      inl (reason, says, k ∙ ap (λ l. l ++ row reason ∷ []) same)

  deny-Stage :
      (A : Type 0) (g h : Gateway L) (reason : String) (e : GatewayError)
      → Says e reason
      → log h ≡ log g
      → Stage {A = A} g (deny L redact world req reason e h)
  unfolding audit
  deny-Stage A g h reason e says same = denied A g h reason e _ says same refl

  wrap-Stage :
      (A : Type 0) (g h : Gateway L) (out : Result StoreError A × L.State)
      → out.1.1 ≡ log g
      → Stage g (wrap L redact h out)
  wrap-Stage A g h (ok a, s) k = k
  wrap-Stage A g h (err e, s) k = inr (e, refl, k)

  ask_limiter-Stage :
      (key : String) (l : Option Limiter) (g : Gateway L)
      → Stage g (ask_limiter L redact world key l g)
  ask_limiter-Stage key none g = refl
  ask_limiter-Stage key (some l) g = refl

  check_rate-Stage : (g : Gateway L) → Stage g (check_rate L redact world req g)
  unfolding check_rate
  check_rate-Stage g =
      Stage-bind g (ask_limiter L redact world (rate_key req.identity) g.limiter g) _
        (ask_limiter-Stage (rate_key req.identity) g.limiter g)
        λ allowed h same.
          if_elim (λ (m : Handler L redact Unit). Stage g (m h)) allowed (pure tt)
            (deny L redact world req "denied: rate limited" rate_limited) (λ _. same)
            (λ _. deny-Stage Unit g h "denied: rate limited" rate_limited refl same)

  resolved-Stage :
      (g h : Gateway L) (out : Result StoreError ToolBinding × L.State)
      → out.1.1 ≡ log g
      → Stage g (resolved L redact world req h out)
  resolved-Stage g h (ok b, s) k = k
  resolved-Stage g h (err not_found, s) k =
      deny-Stage ToolBinding g (record h { store = s }) "denied: unknown tool" unknown_tool refl k
  resolved-Stage g h (err (invalid_scope t), s) k = inr (invalid_scope t, refl, k)
  resolved-Stage g h (err name_and_endpoint_required, s) k =
      inr (name_and_endpoint_required, refl, k)
  resolved-Stage g h (err (database what), s) k = inr (database what, refl, k)

  resolve-Stage : (g h : Gateway L) → log h ≡ log g → Stage g (resolve L redact world req h)
  unfolding resolve
  resolve-Stage g h same = resolved-Stage g h _ same

  check_authorized-Stage :
      (server : Server) (g h : Gateway L)
      → log h ≡ log g
      → Stage g (check_authorized L redact world req server h)
  unfolding check_authorized
  check_authorized-Stage server g h same =
      if_elim (λ (m : Handler L redact Unit). Stage g (m h)) (authorized server req.identity)
        (pure tt) (deny L redact world req "denied: unauthorized" unauthorized) (λ _. same)
        (λ _. deny-Stage Unit g h "denied: unauthorized" unauthorized refl same)

  has_approval-Stage :
      (session tool : String) (g h : Gateway L)
      → log h ≡ log g
      → Stage g (has_approval L redact session tool h)
  unfolding has_approval
  has_approval-Stage session tool g h same =
      let ask = of_store L redact (L.list_approvals_by_session session) in
      if_elim (λ (m : Handler L redact Bool). Stage g (m h)) (session == "") (pure false)
        (ask >>= λ approvals. pure (has_approved tool approvals)) (λ _. same)
        (λ _. Stage-bind g (ask h) _ (wrap-Stage (List Approval) g h _ same) (λ _ _ k. k))

  ask_approval-Stage :
      (g h : Gateway L) → log h ≡ log g → Stage g (ask_approval L redact world req h)
  unfolding ask_approval
  ask_approval-Stage g h same =
      let create =
        of_store L redact (L.create_approval req.session_id req.tool_name (redact req.args)) in
      Stage-bind g (create h) _ (wrap-Stage Approval g h _ same) λ ap h' k.
        deny-Stage Unit g h' "gated: awaiting approval" (approval_required ap.id req.tool_name) refl
          k

  require_approval-Stage :
      (g h : Gateway L) → log h ≡ log g → Stage g (require_approval L redact world req h)
  unfolding require_approval
  require_approval-Stage g h same =
      Stage-bind g (has_approval L redact req.session_id req.tool_name h) _
        (has_approval-Stage req.session_id req.tool_name g h same)
        λ approved h' k.
          if_elim (λ (m : Handler L redact Unit). Stage g (m h')) approved (pure tt)
            (ask_approval L redact world req) (λ _. k) (λ _. ask_approval-Stage g h' k)

  gate-Stage :
      (tool : Tool) (g h : Gateway L) → log h ≡ log g → Stage g (gate L redact world req tool h)
  unfolding gate
  gate-Stage tool g h same =
      if_elim (λ (m : Handler L redact Unit). Stage g (m h)) (tool.impact == "high")
        (require_approval L redact world req) (pure tt) (λ _. require_approval-Stage g h same)
        (λ _. same)

  answered-Ends :
      (g h : Gateway L) (r : Result String RawMessage) (id : ℕ)
      → log h ≡ log g ++ row (outcome L redact r) ∷ []
      → Ends g (answered L redact id r h)
  answered-Ends g h (ok output) id k = k
  answered-Ends g h (err e) id k = inl (outcome L redact (err e), refl, k)

  proxied-Ends :
      (g h : Gateway L) (r : Result String RawMessage)
      (out : Result StoreError AuditEntry × L.State)
      → log h ≡ log g
      → out.1.1 ≡ log h ++ row (outcome L redact r) ∷ []
      → Ends g (continue_with (λ id. answered L redact id r) (audit_written L redact h out))
  proxied-Ends g h r (ok e, s) same k =
      answered-Ends g (record h { store = s }) r e.id
        (k ∙ ap (λ l. l ++ row (outcome L redact r) ∷ []) same)
  proxied-Ends g h r (err e, s) same k =
      answered-Ends g (record h { store = s }) r 0
        (k ∙ ap (λ l. l ++ row (outcome L redact r) ∷ []) same)

  proxy-Ends :
      (b : ToolBinding) (g h : Gateway L) → log h ≡ log g → Ends g (proxy L redact world req b h)
  unfolding proxy audit
  proxy-Ends b g h same =
      proxied-Ends g (send L redact b.server b.tool req.args h).1
        (world.respond b.server b.tool req.args) _ same refl

  -- Every call asks for exactly one audit row, of its caller and its tool, in which the arguments are
  -- redacted, and the result is `ok` if the call succeeds and what stands for its error if it fails:
  -- which denial, that an approval is awaited, or the error that the tool's server gave. Only a call
  -- that ends with an error of the store asks for no row.
  pub call-Ends : (g : Gateway L) → Ends g (call L redact world req g)
  unfolding call
  call-Ends g = Ends-bind g (check_rate L redact world req g) _ (check_rate-Stage g) λ _ g₁ k₁.
      Ends-bind g (resolve L redact world req g₁) _ (resolve-Stage g g₁ k₁) λ b g₂ k₂.
        Ends-bind g (check_authorized L redact world req b.server g₂) _
          (check_authorized-Stage b.server g g₂ k₂)
          λ _ g₃ k₃.
            Ends-bind g (gate L redact world req b.tool g₃) _ (gate-Stage b.tool g g₃ k₃)
              λ _ g₄ k₄. proxy-Ends b g g₄ k₄
