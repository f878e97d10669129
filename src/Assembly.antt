-- ===== src/Assembly.antt =====
-- services/session-memory/internal/assembly/assemble.go: the budgeted context of a turn. A text is
-- its list of bytes, a token count is a natural number.
pub mod Budget
pub mod Builder
use sl_open_bark.Common.{
  ℕ, zero, suc, ◌+◌, ◌-◌, ◌*◌, ◌/◌, String, Bool, true, false, not, ◌&&◌, ◌||◌, List, [], ◌∷◌, ◌++◌,
  map, Option, none, some, if◌then◌else◌, ltb, leb,
}
use sl_open_bark.Common.Int.{ℤ, pos, negsuc}
use sl_open_bark.Common.Lists.{length, take}

abbrev pub Bytes : Type 0
Bytes = List ℕ

pub record Part : Type 0 where
  pub name : String
  pub content : Bytes
  pub trimmable : Bool

pub record Assembled : Type 0 where
  pub text : Bytes
  pub tokens : ℕ
  pub included : List String
  pub truncated : List String
  pub dropped : List String

abbrev pub TokenCounter : Type 0
TokenCounter = Bytes → ℕ

unfoldable pub estimate_tokens : TokenCounter
estimate_tokens s = (length s + 3) / 4

-- "\n…[trimmed]" in UTF-8
abbrev pub marker : Bytes
marker = 10 ∷ 226 ∷ 128 ∷ 166 ∷ 91 ∷ 116 ∷ 114 ∷ 105 ∷ 109 ∷ 109 ∷ 101 ∷ 100 ∷ 93 ∷ []

abbrev pub is_empty : Bytes → Bool
is_empty [] = true
is_empty (b ∷ bs) = false

-- The shrinking loop, from `cut` down in steps of 16. Each round makes `cut` smaller, so that a fuel
-- of `cut` rounds is enough.
pub shrink : TokenCounter → ℕ → Bytes → ℕ → ℕ → Bytes
shrink count max_tokens s zero cut = []
shrink count max_tokens s (suc fuel) cut =
    let candidate = take cut s ++ marker in
    let smaller = shrink count max_tokens s fuel (cut - 16) in
    if leb cut 0 then [] else if leb (count candidate) max_tokens then candidate else smaller

abbrev first_cut : ℕ → Bytes → ℕ
first_cut max_tokens s = if ltb (length s) (max_tokens * 4) then length s else max_tokens * 4

pub truncate_to_tokens : TokenCounter → ℕ → Bytes → Bytes
unfolding shrink
truncate_to_tokens count max_tokens s =
    if leb max_tokens 0
    then []
    else if leb (count s) max_tokens
    then s
    else shrink count max_tokens s (first_cut max_tokens s) (first_cut max_tokens s)

-- The variables of `Assemble`'s loop that the rest of it adds to.
pub record Packed : Type 0 where
  pub segs : List Bytes
  pub spent : ℕ
  pub whole : List String
  pub cut_short : List String
  pub skipped : List String

abbrev pub packed : List Bytes → ℕ → List String → List String → Packed
packed segs spent cut_short skipped = record {
  segs = segs;
  spent = spent;
  whole = [];
  cut_short = cut_short;
  skipped = skipped;
}

abbrev pub include : Part → Packed → Packed
include p r = record r { segs = p.content ∷ r.segs; whole = p.name ∷ r.whole }

-- `budget <= 0 || cost <= budget - tokens`
abbrev pub fits : ℤ → ℕ → ℕ → Bool
fits (negsuc n) tokens cost = true
fits (pos zero) tokens cost = true
fits (pos (suc b)) tokens cost = leb (tokens + cost) (suc b)

-- `budget - tokens`, where it is positive
abbrev pub remaining_of : ℤ → ℕ → ℕ
remaining_of (negsuc n) tokens = 0
remaining_of (pos b) tokens = b - tokens

abbrev pub place_trimmed : TokenCounter → Part → ℕ → Bytes → Packed
place_trimmed count p tokens [] = packed [] tokens [] (p.name ∷ [])
place_trimmed count p tokens (b ∷ bs) =
    packed ((b ∷ bs) ∷ []) (tokens + count (b ∷ bs)) (p.name ∷ []) []

-- The part that does not fit, after which the loop stops.
pub stop_at : TokenCounter → ℤ → Part → ℕ → Packed
unfolding truncate_to_tokens
stop_at count budget p tokens =
    let remaining = remaining_of budget tokens in
    if p.trimmable && ltb 0 remaining
    then place_trimmed count p tokens (truncate_to_tokens count remaining p.content)
    else packed [] tokens [] (p.name ∷ [])

-- The loop over the parts, where `tokens` are spent already.
pub pack : TokenCounter → ℤ → List Part → ℕ → Packed
unfolding stop_at
pack count budget [] tokens = packed [] tokens [] []
pack count budget (p ∷ ps) tokens =
    let skip = pack count budget ps tokens in
    let more = pack count budget ps (tokens + count p.content) in
    if is_empty p.content
    then skip
    else if fits budget tokens (count p.content)
    then include p more
    else stop_at count budget p tokens

-- `strings.Join(segs, "\n\n")`
abbrev pub join : List Bytes → Bytes
join [] = []
join (s ∷ []) = s
join (s ∷ t ∷ ts) = s ++ 10 ∷ 10 ∷ join (t ∷ ts)

abbrev pub assembled : Packed → Assembled
assembled r = record {
  text = join r.segs;
  tokens = r.spent;
  included = r.whole;
  truncated = r.cut_short;
  dropped = r.skipped;
}

abbrev counter_or : Option TokenCounter → TokenCounter
counter_or none = estimate_tokens
counter_or (some count) = count

pub assemble : List Part → ℤ → Option TokenCounter → Assembled
unfolding pack
assemble parts budget count = assembled (pack (counter_or count) budget parts 0)
