-- ===== src/Workspace/Tools/Sent.antt =====
-- The Google Workspace server over HTTP: when an email goes out.
use sl_open_bark.Common.{
  String, true, false, List, [], ◌∷◌, none, some, string_eq, ◌≡◌, ◌≢◌, refl, ap, ◌∙◌, ◌⊎◌, inl, inr,
  arith, Bool-cases, eq_of_==,
}
use sl_open_bark.Common.Members.{Elem}
use sl_open_bark.Common.Result.{Result, ok, err, continue_with, pure}
use sl_open_bark.Common.Text.{trim_space}
use sl_open_bark.Workspace.{
  EmailDraft, WorkspaceError, no_recipient, no_subject, Google, blank, is_nil, non_empty,
  validate_email_draft, send_email,
}
use sl_open_bark.Workspace.Tools.{
  EmailInput, Output, id_output, draft_of, gmail_send, call_tool, serve_tool,
}
use sl_open_bark.Mcp.{Request, Answer}
use sl_open_bark.Mcp.Admitted.{Admitted, serve-Fronted}

-- Some recipient is not blank, and neither is the subject.
abbrev pub Deliverable : EmailDraft → Type 0
Deliverable d = ((to : String) × Elem to d.to × (trim_space to ≢ "")) × (trim_space d.subject ≢ "")

abbrev Named : List String → Type 0
Named xs = (to : String) × Elem to xs × (trim_space to ≢ "")

non_empty-Named :
    (xs : List String)
    → ((is_nil (non_empty xs) ≡ false) × Named xs) ⊎ ((is_nil (non_empty xs) ≡ true) × ¬ Named xs)
non_empty-Named [] = inr (refl, λ (to, m, n). m)
non_empty-Named (x ∷ xs) = elim (Bool-cases (blank x)) [
  | inl empty' ↦ elim (non_empty-Named xs) [
    | inl (e, (to, m, n)) ↦ inl (rw empty' e, (to, inr m, n))
    | inr (e, none') ↦ inr (
      rw empty' e,
      λ (to, m, n). elim m [
        | inl here ↦ n (ap trim_space here ∙ eq_of_== (trim_space x) "" empty')
        | inr there ↦ none' (to, there, n)
      ],
    )
  ]
  | inr filled ↦ inl (rw filled refl, (x, inl refl, ground arith))
]

-- The validation decides whether the draft is deliverable.
validate_email_draft-Deliverable :
    (d : EmailDraft)
    → ((validate_email_draft d ≡ none) × Deliverable d)
      ⊎ ((e : WorkspaceError) × (validate_email_draft d ≡ some e) × ¬ Deliverable d)
unfolding validate_email_draft
validate_email_draft-Deliverable d = elim (non_empty-Named d.to) [
  | inr (e, none') ↦ inr (no_recipient, rw e refl, λ (named, filled). none' named)
  | inl (e, named) ↦ elim (Bool-cases (blank d.subject)) [
    | inl empty' ↦ inr (
      no_subject,
      rw (e, empty') refl,
      λ (n, filled). filled (eq_of_== (trim_space d.subject) "" empty'),
    )
    | inr filled ↦ inl (rw (e, filled) refl, (named, ground arith))
  ]
]

module _ (G : Google) where
  -- The draft passes, and Google gets it; or it does not, and nothing is asked of Google.
  abbrev pub Passed : EmailInput → G.State → Result WorkspaceError Output × G.State → Type 0
  Passed input s out =
      (Deliverable (draft_of input) × (out.1 ≡ (G.send_email (draft_of input) s).1))
      ⊎ ((¬ Deliverable (draft_of input)) × (out.1 ≡ s))

  output-state :
      (f : String → Output) (r : Result WorkspaceError String × G.State)
      → (continue_with (λ id. pure (f id)) r).1 ≡ r.1
  output-state f (ok id, s) = refl
  output-state f (err e, s) = refl

  send-Passed :
      (input : EmailInput) (s : G.State) → Passed input s (call_tool G (gmail_send input) s)
  unfolding call_tool send_email
  send-Passed input s =
      let kept = output-state (λ id. id_output (record { id = id })) in
      elim (validate_email_draft-Deliverable (draft_of input)) [
        | inl (e, fine) ↦ inl (fine, kept (send_email G (draft_of input) s) ∙ rw e refl)
        | inr (x, e, bad) ↦ inr (bad, kept (send_email G (draft_of input) s) ∙ rw e refl)
      ]

  -- A call of `gmail_send` over HTTP asks Google to send exactly if the request is for the tools, has
  -- the token if one is configured, and some recipient and the subject are not blank; and what Google
  -- is asked to send is the email of the input. Otherwise Google's state is as it was.
  pub serve_tool-Sent :
      (token : String) (r : Request) (input : EmailInput) (s : G.State)
      → ((Admitted token r × Deliverable (draft_of input))
          × ((serve_tool G token r (gmail_send input) s).1 ≡ (G.send_email (draft_of input) s).1))
        ⊎ ((¬ (Admitted token r × Deliverable (draft_of input)))
            × ((serve_tool G token r (gmail_send input) s).1 ≡ s))
  unfolding serve_tool
  serve_tool-Sent token r input s =
      elim (serve-Fronted token (call_tool G (gmail_send input)) r s) [
        | inl (admitted, out) ↦ elim (send-Passed input s) [
          | inl (fine, sent) ↦
              inl ((admitted, fine), ap (λ (x : Answer _ × G.State). x.1) out ∙ sent)
          | inr (bad, same) ↦
              inr (λ (a, fine). bad fine, ap (λ (x : Answer _ × G.State). x.1) out ∙ same)
        ]
        | inr (outside, same) ↦ inr (λ (a, fine). outside a, same)
      ]
