-- ===== src/Workspace/Message/Lines.antt =====
-- google.go: the lines of a message, and the headers that a reader of it finds.
use mathlib.Core.List.{append_assoc}
use text.Mathlib.TextLemmas.{cons-append, nil-append}
use Prim.Native.Char.{Char, code}
use sl_open_bark.Common.{
  String, ◌<>◌, Bool, true, false, not, ◌&&◌, ◌||◌, List, [], ◌∷◌, ◌++◌, if◌then◌else◌, ◌==◌,
  nat_eq, ◌≡◌, refl, sym, ap, ◌∙◌, arith,
}
use sl_open_bark.Common.Lists.{All}
use sl_open_bark.Workspace.{EmailDraft}
use sl_open_bark.Workspace.Message.{join, crlf, render, line, cc_line}

abbrev is_cr : Char → Bool
is_cr c = code c == 13

abbrev is_lf : Char → Bool
is_lf c = code c == 10

abbrev starts_lf : String → Bool
starts_lf String.[] = false
starts_lf (String.◌∷◌ c s) = code c == 10

abbrev cons_first : Char → List String → List String
cons_first c [] = []
cons_first c (l ∷ ls) = String.◌∷◌ c l ∷ ls

-- The lines of a text for any reader: a line ends at CR LF, at an LF alone and at a CR alone.
unfoldable pub lines : String → List String
lines String.[] = "" ∷ []
lines (String.◌∷◌ c s) =
    let rest = lines s in
    if is_lf c
    then "" ∷ rest
    else if is_cr c
    then if starts_lf s then rest else "" ∷ rest
    else cons_first c rest

-- A text with neither CR nor LF.
unfoldable pub is_plain : String → Bool
is_plain String.[] = true
is_plain (String.◌∷◌ c s) = not (is_cr c || is_lf c) && is_plain s

plain_cons :
    (c : Char) (s : String)
    → is_plain (String.◌∷◌ c s) ≡ true
    → (is_cr c || is_lf c ≡ false) × (is_plain s ≡ true)
unfolding is_plain nat_eq
plain_cons c s h = ground arith

cons_plain :
    (c : Char) (s : String)
    → is_cr c || is_lf c ≡ false
    → is_plain s ≡ true
    → is_plain (String.◌∷◌ c s) ≡ true
unfolding is_plain nat_eq
cons_plain c s h k = ground arith

crlf-append : (b : String) → crlf <> b ≡ String.◌∷◌ "\r" (String.◌∷◌ "\n" b)
crlf-append b =
    cons-append "\r" "\n" b
    ∙ ap (λ s. String.◌∷◌ "\r" s)
        (cons-append "\n" "" b ∙ ap (λ s. String.◌∷◌ "\n" s) (nil-append b))

lines-crlf : (b : String) → lines (crlf <> b) ≡ "" ∷ lines b
unfolding lines nat_eq
lines-crlf b = ap lines (crlf-append b)

lines-plain_cons :
    (c : Char) (u l : String) (ls : List String)
    → is_cr c || is_lf c ≡ false
    → lines u ≡ l ∷ ls
    → lines (String.◌∷◌ c u) ≡ String.◌∷◌ c l ∷ ls
unfolding lines nat_eq
lines-plain_cons c u l ls h e = ground (arith, e)

-- A plain text before CR LF is a line of its own.
lines-line : (a b : String) → is_plain a ≡ true → lines (line a b) ≡ a ∷ lines b
lines-line String.[] b h = ap lines (nil-append (crlf <> b)) ∙ lines-crlf b
lines-line (String.◌∷◌ c s) b h =
    let (first, rest) = plain_cons c s h in
    ap lines (cons-append c s (crlf <> b))
    ∙ lines-plain_cons c (s <> (crlf <> b)) s (lines b) first (lines-line s b rest)

is_plain-append : (a b : String) → is_plain a ≡ true → is_plain b ≡ true → is_plain (a <> b) ≡ true
is_plain-append String.[] b h k = ap is_plain (nil-append b) ∙ k
is_plain-append (String.◌∷◌ c s) b h k =
    let (first, rest) = plain_cons c s h in
    ap is_plain (cons-append c s b) ∙ cons_plain c (s <> b) first (is_plain-append s b rest k)

abbrev pub Plain : String → Type 0
Plain s = is_plain s ≡ true

join-Plain : (ss : List String) → All Plain ss → Plain (join ss)
unfolding is_plain nat_eq
join-Plain [] h = refl
join-Plain (a ∷ []) (p, h) = p
join-Plain (a ∷ b ∷ rest) (p, h) =
    is_plain-append a (", " <> join (b ∷ rest)) p
      (is_plain-append ", " (join (b ∷ rest)) refl (join-Plain (b ∷ rest) h))

-- A header whose value is plain is one line.
header-line :
    (name value rest : String)
    → Plain name
    → Plain value
    → lines (line (name <> value) rest) ≡ (name <> value) ∷ lines rest
header-line name value rest h k = lines-line (name <> value) rest (is_plain-append name value h k)

abbrev pub cc_header : List String → List String
cc_header [] = []
cc_header (a ∷ as') = ("Cc: " <> join (a ∷ as')) ∷ []

cc_line-lines :
    (cc : List String) (rest : String)
    → All Plain cc
    → lines (cc_line cc rest) ≡ cc_header cc ++ lines rest
unfolding is_plain nat_eq
cc_line-lines [] rest h = refl
cc_line-lines (a ∷ as') rest h =
    header-line "Cc: " (join (a ∷ as')) rest refl (join-Plain (a ∷ as') h)

-- The headers that an email is meant to have.
abbrev pub headers : EmailDraft → List String
headers d =
    ("To: " <> join d.to)
    ∷ (cc_header d.cc
        ++ ("Subject: " <> d.subject)
          ∷ "MIME-Version: 1.0"
          ∷ "Content-Type: text/plain; charset=\"UTF-8\""
          ∷ [])

-- An email whose recipients and subject hold neither CR nor LF has exactly the headers it is meant to
-- have, then a blank line, then the lines of its body, wherever a reader ends lines: at CR LF, at LF or
-- at CR.
pub lines-render :
    (d : EmailDraft)
    → All Plain d.to
    → All Plain d.cc
    → Plain d.subject
    → lines (render d) ≡ headers d ++ "" ∷ lines d.body
unfolding render is_plain nat_eq
lines-render d to cc subject =
    header-line "To: " (join d.to) _ refl (join-Plain d.to to)
    ∙ ap (λ x. ("To: " <> join d.to) ∷ x)
        (cc_line-lines d.cc _ cc
          ∙ ap (λ x. cc_header d.cc ++ x)
              (header-line "Subject: " d.subject _ refl subject
                ∙ ap (λ x. ("Subject: " <> d.subject) ∷ x)
                    (lines-line "MIME-Version: 1.0" _ refl
                      ∙ ap (λ x. "MIME-Version: 1.0" ∷ x)
                          (lines-line "Content-Type: text/plain; charset=\"UTF-8\"" _ refl
                            ∙ ap (λ x. "Content-Type: text/plain; charset=\"UTF-8\"" ∷ x)
                                (lines-line "" d.body refl))))
          ∙ sym (append_assoc (cc_header d.cc) _ _))
