-- ===== src/Slack/Value/RoundTrip.antt =====
-- blocks.go: which ids survive the trip through a button.
use mathlib.Core.Path.{subst}
use text.Mathlib.TextEquality.{Char-path}
use text.Mathlib.TextLemmas.{
  cons-append, nil-append, append_assoc, append_cancel_left, tail-eq_of_cons-eq, cons≢nil,
}
use Prim.Native.Char.{Char, code}
use sl_open_bark.Common.{
  String, ◌<>◌, Bool, true, false, ◌&&◌, Option, none, some, if◌then◌else◌, nat_eq, ◌≡◌, refl, ap,
  ◌∙◌, sym, arith, if_elim, eq_of_==, ◌↔◌,
}
use sl_open_bark.Slack.Value.{
  value_sep, encode_value, is_colon, starts_colon, rest_of, cons_first, cut, parts_or, decode_value,
}

-- A task id that holds no separator, also not with the first colon of one behind it.
abbrev pub Separable : String → Type 0
Separable t = cut (t <> ":") ≡ none

-- The text in front of a text, by its characters.
sep-append : (a : String) → value_sep <> a ≡ String.◌∷◌ ":" (String.◌∷◌ ":" a)
sep-append a =
    cons-append ":" ":" a
    ∙ ap (λ s. String.◌∷◌ ":" s) (cons-append ":" "" a ∙ ap (λ s. String.◌∷◌ ":" s) (nil-append a))

-- Both ends of the text begin alike, whatever is behind the task id.
starts_colon-append :
    (t a : String) → starts_colon (t <> (value_sep <> a)) ≡ starts_colon (t <> ":")
unfolding nat_eq
starts_colon-append String.[] a = ap starts_colon (nil-append (value_sep <> a) ∙ sep-append a)
starts_colon-append (String.◌∷◌ d t) a =
    rw (cons-append d t (value_sep <> a), cons-append d t ":") refl

-- A character in front, once the rest is known to be cut as it should.
cut-cons :
    (c : Char) (t a u v : String)
    → starts_colon u ≡ starts_colon v
    → (cut v ≡ none → cut u ≡ some (t, a))
    → cut (String.◌∷◌ c v) ≡ none
    → cut (String.◌∷◌ c u) ≡ some (String.◌∷◌ c t, a)
unfolding cut nat_eq
cut-cons c t a u v same ih h = ground arith

cut-append : (t a : String) → Separable t → cut (t <> (value_sep <> a)) ≡ some (t, a)
unfolding cut nat_eq
cut-append String.[] a h = rw (nil-append (value_sep <> a), sep-append a) refl
cut-append (String.◌∷◌ c t) a h =
    ap cut (cons-append c t (value_sep <> a))
    ∙ cut-cons c t a (t <> (value_sep <> a)) (t <> ":") (starts_colon-append t a) (cut-append t a)
        (ap cut (sym (cons-append c t ":")) ∙ h)

-- What `cut` finds is put together again to the text.
abbrev Rejoined : String → Option (String × String) → Type 0
Rejoined v none = Unit
Rejoined v (some (before, after)) = before <> (value_sep <> after) ≡ v

cons_first-Rejoined :
    (c : Char) (s : String) (o : Option (String × String))
    → Rejoined s o
    → Rejoined (String.◌∷◌ c s) (cons_first c o)
cons_first-Rejoined c s none h = tt
cons_first-Rejoined c s (some (b, r)) h =
    cons-append c b (value_sep <> r) ∙ ap (λ x. String.◌∷◌ c x) h

-- A character that is a colon.
colon : (c : Char) → is_colon c ≡ true → c ≡ ":"
unfolding nat_eq
colon c h = Char-path c ":" (eq_of_== (code c) b':' h)

-- Two colons in front are the separator.
colons-Rejoined :
    (c : Char) (s : String)
    → is_colon c && starts_colon s ≡ true
    → Rejoined (String.◌∷◌ c s) (some (String.[], rest_of s))
colons-Rejoined c String.[] h = ground arith
colons-Rejoined c (String.◌∷◌ d s) h = nil-append (value_sep <> s) ∙ sep-append s ∙ (λ i.
    String.◌∷◌ (sym (colon c (ground arith)) i) (String.◌∷◌ (sym (colon d (ground arith)) i) s))

cut-Rejoined : (v : String) → Rejoined v (cut v)
unfolding cut
cut-Rejoined String.[] = tt
cut-Rejoined (String.◌∷◌ c s) =
    if_elim (Rejoined (String.◌∷◌ c s)) (is_colon c && starts_colon s) (some (String.[], rest_of s))
      (cons_first c (cut s)) (colons-Rejoined c s)
      (λ _. cons_first-Rejoined c s (cut s) (cut-Rejoined s))

-- A text `w` behind goes to the part after the separator.
abbrev Extended : String → Option (String × String) → Option (String × String) → Type 0
Extended w none o = Unit
Extended w (some (b, r)) o = o ≡ some (b, r <> w)

cons_first-Extended :
    (c : Char) (w : String) (o p : Option (String × String))
    → Extended w o p
    → Extended w (cons_first c o) (cons_first c p)
cons_first-Extended c w none p h = tt
cons_first-Extended c w (some (b, r)) p h = rw h refl

branch-Extended :
    (g : Bool) (c : Char) (w s : String) (o p : Option (String × String))
    → Extended w o p
    → Extended w
        (if g then some ("", s) else cons_first c o)
        (if g then some ("", s <> w) else cons_first c p)
branch-Extended true c w s o p h = refl
branch-Extended false c w s o p h = cons_first-Extended c w o p h

cut-Extended_cons :
    (c d : Char) (s w : String)
    → Extended w (cut (String.◌∷◌ d s)) (cut (String.◌∷◌ d s <> w))
    → Extended w (cut (String.◌∷◌ c (String.◌∷◌ d s))) (cut (String.◌∷◌ c (String.◌∷◌ d (s <> w))))
unfolding cut nat_eq
cut-Extended_cons c d s w h =
    branch-Extended (is_colon c && is_colon d) c w s (cut (String.◌∷◌ d s))
      (cut (String.◌∷◌ d (s <> w)))
      (subst (λ x. Extended w (cut (String.◌∷◌ d s)) (cut x)) (cons-append d s w) h)

cut-single : (c : Char) → cut (String.◌∷◌ c String.[]) ≡ none
unfolding cut nat_eq
cut-single c = ground arith

cut-Extended : (u w : String) → Extended w (cut u) (cut (u <> w))
unfolding cut
cut-Extended String.[] w = tt
cut-Extended (String.◌∷◌ c String.[]) w =
    subst (λ o. Extended w o (cut (String.◌∷◌ c String.[] <> w))) (sym (cut-single c)) tt
cut-Extended (String.◌∷◌ c (String.◌∷◌ d s)) w =
    subst (λ x. Extended w (cut (String.◌∷◌ c (String.◌∷◌ d s))) (cut x))
      (sym (cons-append c (String.◌∷◌ d s) w ∙ ap (λ x. String.◌∷◌ c x) (cons-append d s w)))
      (cut-Extended_cons c d s w (cut-Extended (String.◌∷◌ d s) w))

-- No task id is the part in front of a separator that starts in it.
separator_shorter : (t r : String) → t <> (value_sep <> r) ≡ t <> ":" → ⊥
separator_shorter t r h =
    let same = append_cancel_left t (value_sep <> r) ":" h in
    cons≢nil (tail-eq_of_cons-eq (sym (sep-append r) ∙ same))

not_found :
    (t a b r : String)
    → Rejoined (t <> ":") (some (b, r))
    → decode_value (encode_value t a) ≡ (t, a)
    → cut (encode_value t a) ≡ some (b, r <> (":" <> a))
    → ⊥
unfolding decode_value
not_found t a b r joined h found =
    let e : Path (String × String) (b, r <> (":" <> a)) (t, a) =
      sym (ap (parts_or (encode_value t a)) found) ∙ h in
    separator_shorter t r (ap (λ x. x <> (value_sep <> r)) (sym (ap (λ x. x.0) e)) ∙ joined)

colons : (a : String) → ":" <> (":" <> a) ≡ value_sep <> a
colons a = sym (append_assoc ":" ":" a)

Separable-decode_value :
    (t a : String) (o : Option (String × String))
    → cut (t <> ":") ≡ o
    → decode_value (encode_value t a) ≡ (t, a)
    → o ≡ none
unfolding encode_value
Separable-decode_value t a none e h = refl
Separable-decode_value t a (some (b, r)) e h = absurd (
    not_found t a b r (subst (Rejoined (t <> ":")) e (cut-Rejoined (t <> ":"))) h (
      subst (λ x. cut x ≡ some (b, r <> (":" <> a)))
        (append_assoc t ":" (":" <> a) ∙ ap (λ x. t <> x) (colons a))
        (subst (λ o. Extended (":" <> a) o (cut ((t <> ":") <> (":" <> a)))) e
          (cut-Extended (t <> ":") (":" <> a)))))

-- A button's value is decoded to the ids it was encoded from exactly when the task id holds no
-- separator, also not one whose second colon would be the separator's own first.
pub decode_value-encode_value :
    (task_id approval_id : String)
    → (decode_value (encode_value task_id approval_id) ≡ (task_id, approval_id)) ↔ Separable task_id
unfolding decode_value encode_value
decode_value-encode_value t a =
    (Separable-decode_value t a (cut (t <> ":")) refl, λ h. rw (cut-append t a h) refl)
