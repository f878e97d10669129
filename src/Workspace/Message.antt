-- ===== src/Workspace/Message.antt =====
-- mcp-servers/google-workspace/internal/clients/google.go, `encodeMessage`: the text of an email.
pub mod Lines
use sl_open_bark.Common.{String, ◌<>◌, List, [], ◌∷◌}
use sl_open_bark.Workspace.{EmailDraft}

-- `strings.Join(s, ", ")`
abbrev pub join : List String → String
join [] = ""
join (a ∷ []) = a
join (a ∷ b ∷ rest) = a <> (", " <> join (b ∷ rest))

abbrev pub crlf : String
crlf = "\r\n"

abbrev pub line : String → String → String
line s rest = s <> (crlf <> rest)

abbrev pub cc_line : List String → String → String
cc_line [] rest = rest
cc_line (a ∷ as') rest = line ("Cc: " <> join (a ∷ as')) rest

-- What is written, before its encoding
unfoldable pub render : EmailDraft → String
render d = line ("To: " <> join d.to) (
    cc_line d.cc (
      line ("Subject: " <> d.subject) (
        line "MIME-Version: 1.0"
          (line "Content-Type: text/plain; charset=\"UTF-8\"" (line "" d.body)))))

-- `encode` is the URL encoding of base64 without padding.
unfoldable pub encode_message : (String → String) → EmailDraft → String
unfolding render
encode_message encode d = encode (render d)
