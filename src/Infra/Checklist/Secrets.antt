-- ===== src/Infra/Checklist/Secrets.antt =====
-- infra/validate/checklist.go: the scan for committed secrets. A file's content is its code points.
use sl_open_bark.Common.{
  ℕ, zero, suc, ◌<>◌, String, Bool, true, false, ◌&&◌, ◌||◌, List, [], ◌∷◌, Option, none, some,
  if◌then◌else◌, ◌==◌, string_eq, nat_eq, contains, ltb, leb,
}
use sl_open_bark.Common.Result.{Result, ok, err}
use sl_open_bark.Gateway.Redact.{codes}
use sl_open_bark.Infra.Tree.{
  Node, file, folder, locked, Entries, end_entries, entry, name_of, both, unreadable, has_suffix,
}

pub data Problem : Type 0 where
  no_scope : String → String → Problem
  bad_impact : String → String → String → Problem
  not_gated : String → String → String → Problem
  committed_secret : String → String → Problem

-- What the expressions are made of: a text, one of some texts, so many characters of a class, and
-- as many as there are. No expression goes on with a character of the class that stands before.
pub data Piece : Type 0 where
  literal : String → Piece
  one_of : List String → Piece
  times : ℕ → (ℕ → Bool) → Piece
  run_of : (ℕ → Bool) → Piece

abbrev between : ℕ → ℕ → ℕ → Bool
between a b c = leb a c && leb c b

abbrev digit : ℕ → Bool
digit = between b'0' b'9'

abbrev lower_hex : ℕ → Bool
lower_hex c = digit c || between b'a' b'f' c

abbrev upper_or_digit : ℕ → Bool
upper_or_digit c = digit c || between b'A' b'Z' c

abbrev alphanumeric : ℕ → Bool
alphanumeric c = upper_or_digit c || between b'a' b'z' c

abbrev word : ℕ → Bool
word c = alphanumeric c || c == b'_'

abbrev token_kind : ℕ → Bool
token_kind c = c == b'p' || c == b'o' || c == b'u' || c == b's' || c == b'r'

abbrev blank : ℕ → Bool
blank c = c == 9 || c == 10 || c == 12 || c == 13 || c == 32

abbrev strip : List ℕ → List ℕ → Option (List ℕ)
strip [] s = some s
strip (p ∷ ps) [] = none
strip (p ∷ ps) (c ∷ cs) = let rest = strip ps cs in if p == c then rest else none

abbrev take_times : ℕ → (ℕ → Bool) → List ℕ → Option (List ℕ)
take_times zero p s = some s
take_times (suc n) p [] = none
take_times (suc n) p (c ∷ cs) = let rest = take_times n p cs in if p c then rest else none

abbrev take_run : (ℕ → Bool) → List ℕ → List ℕ
take_run p [] = []
take_run p (c ∷ cs) = let rest = take_run p cs in if p c then rest else c ∷ cs

abbrev after_rest : (List ℕ → Bool) → Option (List ℕ) → Bool
after_rest go none = false
after_rest go (some s) = go s

abbrev any_of : (List ℕ → Bool) → List String → List ℕ → Bool
any_of go [] s = false
any_of go (t ∷ ts) s = after_rest go (strip (codes t) s) || any_of go ts s

abbrev match_here : List Piece → List ℕ → Bool
match_here [] s = true
match_here (literal t ∷ ps) s = after_rest (match_here ps) (strip (codes t) s)
match_here (one_of ts ∷ ps) s = any_of (match_here ps) ts s
match_here (times n p ∷ ps) s = after_rest (match_here ps) (take_times n p s)
match_here (run_of p ∷ ps) s = match_here ps (take_run p s)

-- `Regexp.Match`: somewhere in the content
unfoldable pub matches : List Piece → List ℕ → Bool
matches ps [] = match_here ps []
matches ps (c ∷ cs) = match_here ps (c ∷ cs) || matches ps cs

pub record Pattern : Type 0 where
  pub label : String
  pub pieces : List Piece

abbrev pattern_of : String → List Piece → Pattern
pattern_of label pieces = record { label = label; pieces = pieces }

-- `secretPatterns`; the order in which Go goes through the map is not fixed.
unfoldable pub secret_patterns : List Pattern
secret_patterns =
    pattern_of "OpenRouter API key" (literal "sk-or-v1-" ∷ times 48 lower_hex ∷ [])
    ∷ pattern_of "Slack bot token" (
        literal "xoxb-"
        ∷ times 8 digit
        ∷ run_of digit
        ∷ literal "-"
        ∷ times 8 digit
        ∷ run_of digit
        ∷ literal "-"
        ∷ times 20 alphanumeric
        ∷ [])
    ∷ pattern_of "GitHub PAT"
        (literal "gh" ∷ times 1 token_kind ∷ literal "_" ∷ times 36 alphanumeric ∷ [])
    ∷ pattern_of "GitHub fine-grained" (literal "github_pat_" ∷ times 60 word ∷ [])
    ∷ pattern_of "AWS access key" (literal "AKIA" ∷ times 16 upper_or_digit ∷ [])
    ∷ pattern_of "private key" (
        literal "-----BEGIN "
        ∷ one_of ("RSA " ∷ "EC " ∷ "OPENSSH " ∷ "PGP " ∷ "" ∷ [])
        ∷ literal "PRIVATE KEY-----"
        ∷ [])
    ∷ pattern_of "Google SA private id" (
        literal "\"private_key_id\""
        ∷ run_of blank
        ∷ literal ":"
        ∷ run_of blank
        ∷ literal "\""
        ∷ times 40 lower_hex
        ∷ literal "\""
        ∷ [])
    ∷ []

abbrev pub skipped_folders : List String
skipped_folders = ".git" ∷ "node_modules" ∷ "vendor" ∷ "out" ∷ "bin" ∷ []

-- Files that the scan leaves out, by their names and sizes.
abbrev pub is_exempt : String → ℕ → Bool
is_exempt name size = has_suffix name ".example" || has_suffix name ".sum" || ltb 2097152 size

abbrev pub leaks : String → List Pattern → List ℕ → List Problem
leaks path [] content = []
leaks path (p ∷ ps) content =
    let rest = leaks path ps content in
    if matches p.pieces content then committed_secret p.label path ∷ rest else rest

abbrev pub leaks_of : String → Option String → List Problem
leaks_of path none = []
leaks_of path (some content) = leaks path secret_patterns (codes content)

-- The path below the root, of an entry of a folder.
abbrev pub inside : String → String → String
inside path name = if path == "." then name else path <> ("/" <> name)

unfoldable mutual
  pub scan : String → Node → Result String (List Problem)
  scan path (file name size content) =
      ok (if is_exempt name size then [] else leaks_of path content)
  scan path (folder name entries) =
      let below = scan_entries path entries in
      if contains skipped_folders name then ok [] else below
  scan path (locked name) = if contains skipped_folders name then ok [] else err (unreadable path)

  pub scan_entries : String → Entries → Result String (List Problem)
  scan_entries path end_entries = ok []
  scan_entries path (entry n ns) = both (scan (inside path (name_of n)) n) (scan_entries path ns)

unfoldable pub scan_secrets : Node → Result String (List Problem)
unfolding scan
scan_secrets root = scan "." root
