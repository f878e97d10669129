-- ===== src/Assembly/Budget.antt =====
-- assemble.go: what is assembled within a positive budget.
use sl_open_bark.Common.{
  ℕ, zero, suc, ◌+◌, ◌-◌, ◌≤◌, ◌<◌, String, Bool, true, false, not, ◌&&◌, List, [], ◌∷◌, ◌++◌, map,
  some, if◌then◌else◌, ltb, leb, leb→le, if_elim, ◌≡◌, ◌≢◌, ◌⊎◌, inl, inr, refl, ap, arith,
}
use sl_open_bark.Common.Int.{pos}
use sl_open_bark.Common.Lists.{length, take, filter}
use sl_open_bark.Assembly.{
  Bytes, Part, TokenCounter, marker, is_empty, shrink, truncate_to_tokens, Packed, packed, include,
  place_trimmed, stop_at, pack, assembled, assemble, first_cut,
}

not-leb : (m n : ℕ) → n < m → leb m n ≡ true → ⊥
not-leb m n h k = let le = leb→le m n k in omega arith

module _ (count : TokenCounter) (max_tokens : ℕ) (s : Bytes) where
  -- A text that fits, and that is a beginning of `s` with the marker.
  abbrev pub TrimmedTo : ℕ → Bytes → Type 0
  TrimmedTo cut t =
      (t ≡ []) ⊎ ((count t ≤ max_tokens) × ((k : ℕ) × (k ≤ cut) × (t ≡ take k s ++ marker)))

  TrimmedTo-mono : (c d : ℕ) (t : Bytes) → c ≤ d → TrimmedTo c t → TrimmedTo d t
  TrimmedTo-mono c d t le (inl e) = inl e
  TrimmedTo-mono c d t le (inr (f, (k, b, e))) = inr (f, (k, (omega arith), e))

  shrink-TrimmedTo : (fuel cut : ℕ) → TrimmedTo cut (shrink count max_tokens s fuel cut)
  unfolding shrink
  shrink-TrimmedTo zero cut = inl refl
  shrink-TrimmedTo (suc fuel) cut =
      if_elim (TrimmedTo cut) _ _ _ (λ _. inl refl)
        (λ _.
          if_elim (TrimmedTo cut) _ _ _ (λ h. inr (leb→le _ _ h, (cut, (omega arith), refl)))
            (λ _. TrimmedTo-mono (cut - 16) cut _ (omega arith) (shrink-TrimmedTo fuel (cut - 16))))

  -- The fuel of `truncate_to_tokens` is enough: more of it changes nothing.
  pub shrink-fuel :
      (fuel more cut : ℕ)
      → cut ≤ fuel
      → cut ≤ more
      → shrink count max_tokens s fuel cut ≡ shrink count max_tokens s more cut
  unfolding shrink
  shrink-fuel zero zero cut le more = refl
  shrink-fuel zero (suc more) cut le le' = ground arith
  shrink-fuel (suc fuel) zero cut le le' = ground arith
  shrink-fuel (suc fuel) (suc more) cut le le' = ground (arith, shrink-fuel fuel more (cut - 16))

  first_cut-le : first_cut max_tokens s ≤ length s
  first_cut-le = ground arith

  truncate_to_tokens-TrimmedTo :
      max_tokens < count s → TrimmedTo (length s) (truncate_to_tokens count max_tokens s)
  unfolding truncate_to_tokens
  truncate_to_tokens-TrimmedTo h =
      let cut = first_cut max_tokens s in
      let shorter = shrink count max_tokens s cut cut in
      if_elim (TrimmedTo (length s)) (leb max_tokens 0) []
        (if leb (count s) max_tokens then s else shorter) (λ _. inl refl)
        (λ _.
          if_elim (TrimmedTo (length s)) (leb (count s) max_tokens) s shorter
            (λ k. absurd (not-leb (count s) max_tokens h k))
            (λ _. TrimmedTo-mono cut (length s) shorter first_cut-le (shrink-TrimmedTo cut cut)))

abbrev has_content : Part → Bool
has_content p = not (is_empty p.content)

module _ (count : TokenCounter) (b : ℕ) where
  abbrev pub total : List Bytes → ℕ
  total [] = 0
  total (s ∷ ss) = count s + total ss

  -- How it ends after the parts that are included whole, which cost `reached` tokens: with the parts
  -- that are left, the text that is appended, and the names of the trimmed and the dropped parts.
  pub data Ending (reached : ℕ) : List Part → List Bytes → List String → List String → Type 0 where
    all_fit : Ending reached [] [] [] []
    dropped_at :
        (p : Part) (later : List Part)
        → b < reached + count p.content
        → Ending reached (p ∷ later) [] [] (p.name ∷ [])
    trimmed_at :
        (p : Part) (later : List Part) (t : Bytes)
        → b < reached + count p.content
        → p.trimmable ≡ true
        → TrimmedTo count (b - reached) p.content (length p.content) t
        → t ≢ []
        → Ending reached (p ∷ later) (t ∷ []) (p.name ∷ []) []

  pub record Budgeted (tokens : ℕ) (parts : List Part) (r : Packed) : Type 0 where
    pub whole : List Part
    pub rest : List Part
    pub tail : List Bytes
    pub reached : ℕ
    pub in_order : filter has_content parts ≡ whole ++ rest
    pub names : r.whole ≡ map (λ p. p.name) whole
    pub texts : r.segs ≡ map (λ p. p.content) whole ++ tail
    pub cost : reached ≡ tokens + total (map (λ p. p.content) whole)
    pub spent_is : r.spent ≡ reached + total tail
    pub bounded : r.spent ≤ b
    pub ending : Ending reached rest tail r.cut_short r.skipped

  abbrev not_included : Part → ℕ → Packed
  not_included p tokens = packed [] tokens [] (p.name ∷ [])

  not_included-Budgeted :
      (p : Part) (ps : List Part) (tokens : ℕ)
      → has_content p ≡ true
      → tokens ≤ b
      → b < tokens + count p.content
      → Budgeted tokens (p ∷ ps) (not_included p tokens)
  not_included-Budgeted p ps tokens content le over = record {
    whole = [];
    rest = p ∷ filter has_content ps;
    tail = [];
    reached = tokens;
    in_order = rw content refl;
    names = refl;
    texts = refl;
    cost = omega arith;
    spent_is = omega arith;
    bounded = le;
    ending = dropped_at p _ over;
  }

  place_trimmed-Budgeted :
      (p : Part) (ps : List Part) (tokens : ℕ) (t : Bytes)
      → has_content p ≡ true
      → tokens ≤ b
      → b < tokens + count p.content
      → p.trimmable ≡ true
      → TrimmedTo count (b - tokens) p.content (length p.content) t
      → Budgeted tokens (p ∷ ps) (place_trimmed count p tokens t)
  place_trimmed-Budgeted p ps tokens [] content le over trim fits =
      not_included-Budgeted p ps tokens content le over
  place_trimmed-Budgeted p ps tokens (c ∷ cs) content le over trim (inl e) = absurd (ground arith)
  place_trimmed-Budgeted p ps tokens (c ∷ cs) content le over trim (inr (fit, how)) = record {
    whole = [];
    rest = p ∷ filter has_content ps;
    tail = (c ∷ cs) ∷ [];
    reached = tokens;
    in_order = rw content refl;
    names = refl;
    texts = refl;
    cost = omega arith;
    spent_is = omega arith;
    bounded = omega arith;
    ending = trimmed_at p _ (c ∷ cs) over trim (inr (fit, how)) ground arith;
  }

  stop_at-Budgeted :
      (p : Part) (ps : List Part) (tokens : ℕ)
      → has_content p ≡ true
      → tokens ≤ b
      → b < tokens + count p.content
      → Budgeted tokens (p ∷ ps) (stop_at count (pos b) p tokens)
  unfolding stop_at
  stop_at-Budgeted p ps tokens content le over =
      if_elim (Budgeted tokens (p ∷ ps)) (p.trimmable && ltb 0 (b - tokens))
        (place_trimmed count p tokens (truncate_to_tokens count (b - tokens) p.content))
        (not_included p tokens)
        (λ h.
          place_trimmed-Budgeted p ps tokens _ content le over (ground arith)
            (truncate_to_tokens-TrimmedTo count (b - tokens) p.content (omega arith)))
        (λ _. not_included-Budgeted p ps tokens content le over)

  skip-Budgeted :
      (p : Part) (ps : List Part) (tokens : ℕ) (r : Packed)
      → has_content p ≡ false
      → Budgeted tokens ps r
      → Budgeted tokens (p ∷ ps) r
  skip-Budgeted p ps tokens r empty h = record {
    whole = h.whole;
    rest = h.rest;
    tail = h.tail;
    reached = h.reached;
    in_order = rw empty h.in_order;
    names = h.names;
    texts = h.texts;
    cost = h.cost;
    spent_is = h.spent_is;
    bounded = h.bounded;
    ending = h.ending;
  }

  include-Budgeted :
      (p : Part) (ps : List Part) (tokens : ℕ) (r : Packed)
      → has_content p ≡ true
      → Budgeted (tokens + count p.content) ps r
      → Budgeted tokens (p ∷ ps) (include p r)
  include-Budgeted p ps tokens r content h = record {
    whole = p ∷ h.whole;
    rest = h.rest;
    tail = h.tail;
    reached = h.reached;
    in_order = rw content (ap (λ l. p ∷ l) h.in_order);
    names = ap (λ l. p.name ∷ l) h.names;
    texts = ap (λ l. p.content ∷ l) h.texts;
    cost = let c = h.cost in omega arith;
    spent_is = h.spent_is;
    bounded = h.bounded;
    ending = h.ending;
  }

module _ (count : TokenCounter) (b : ℕ) where
  pack-Budgeted :
      (parts : List Part) (tokens : ℕ)
      → tokens ≤ suc b
      → Budgeted count (suc b) tokens parts (pack count (pos (suc b)) parts tokens)
  unfolding pack
  pack-Budgeted [] tokens le = record {
    whole = [];
    rest = [];
    tail = [];
    reached = tokens;
    in_order = refl;
    names = refl;
    texts = refl;
    cost = omega arith;
    spent_is = omega arith;
    bounded = le;
    ending = all_fit;
  }
  pack-Budgeted (p ∷ ps) tokens le =
      let budget = pos (suc b) in
      let spent = tokens + count p.content in
      let skip = pack count budget ps tokens in
      let more = include p (pack count budget ps spent) in
      let last = stop_at count budget p tokens in
      if_elim (Budgeted count (suc b) tokens (p ∷ ps)) (is_empty p.content) skip
        (if leb spent (suc b) then more else last)
        (λ h.
          skip-Budgeted count (suc b) p ps tokens skip (ground arith) (pack-Budgeted ps tokens le))
        (λ h.
          if_elim (Budgeted count (suc b) tokens (p ∷ ps)) (leb spent (suc b)) more last
            (λ k.
              include-Budgeted count (suc b) p ps tokens _ (ground arith)
                (pack-Budgeted ps spent (leb→le spent (suc b) k)))
            (λ k. stop_at-Budgeted count (suc b) p ps tokens (ground arith) le (ground arith)))

  -- Under a budget of b + 1 tokens, what is assembled is the joined texts of the first non-empty
  -- parts, whole and in their order, and of at most one part more; the tokens are the sum of the
  -- counts of these texts, and at most the budget. If parts are left, the first of them did not
  -- fit: either it is trimmable and included up to a cut, which fits, and named as truncated, or
  -- it is named as dropped; no part after it is included or named.
  pub assemble-Budgeted :
      (parts : List Part)
      → (r : Packed) × (assemble parts (pos (suc b)) (some count) ≡ assembled r)
        × Budgeted count (suc b) 0 parts r
  unfolding assemble
  assemble-Budgeted parts =
      (pack count (pos (suc b)) parts 0, refl, pack-Budgeted parts 0 (omega arith))
