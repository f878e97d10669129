-- ===== src/Engineering/Egress/Denied.antt =====
-- egress.go: only the listed hosts and their subdomains are allowed.
use mathlib.Core.Path.{subst}
use sl_open_bark.Common.{
  ℕ, String, Bool, true, false, ◌||◌, List, [], ◌∷◌, ◌++◌, if◌then◌else◌, ◌≡◌, ◌≢◌, ◌⊎◌, ◌↔◌, inl,
  inr, refl, ap, arith,
}
use sl_open_bark.Common.Members.{Elem}
use sl_open_bark.Common.Text.{trim_space}
use sl_open_bark.Gateway.Redact.{codes, same_codes, to_lower}
use sl_open_bark.Engineering.{allowed_hosts}
use sl_open_bark.Engineering.Egress.{has_suffix, blocked_name, under, under_any, allowed}

same_codes-equal : (xs ys : List ℕ) → (same_codes xs ys ≡ true) ↔ (xs ≡ ys)
same_codes-equal xs ys = (there xs ys, back xs ys)
  where
    there : (xs ys : List ℕ) → same_codes xs ys ≡ true → xs ≡ ys
    there [] [] h = refl
    there [] (y ∷ ys) h = cc
    there (x ∷ xs) [] h = cc
    there (x ∷ xs) (y ∷ ys) h = ground (arith, there xs ys)

    back : (xs ys : List ℕ) → xs ≡ ys → same_codes xs ys ≡ true
    back [] [] h = refl
    back [] (y ∷ ys) h = cc
    back (x ∷ xs) [] h = cc
    back (x ∷ xs) (y ∷ ys) h = ground (arith, back xs ys)

or-left : (a b : Bool) → a ≡ true → a || b ≡ true
or-left true b h = refl
or-left false b h = cc

or-right : (a b : Bool) → b ≡ true → a || b ≡ true
or-right true b h = refl
or-right false b h = h

or-either : (a b : Bool) → a || b ≡ true → (a ≡ true) ⊎ (b ≡ true)
or-either true b h = inl refl
or-either false b h = inr h

has_suffix_self : (s : List ℕ) → has_suffix s s ≡ true
has_suffix_self [] = refl
has_suffix_self (c ∷ cs) =
    or-left (same_codes (c ∷ cs) (c ∷ cs)) (has_suffix cs (c ∷ cs))
      ((same_codes-equal (c ∷ cs) (c ∷ cs)).1 refl)

append-has_suffix : (before suffix : List ℕ) → has_suffix (before ++ suffix) suffix ≡ true
append-has_suffix [] suffix = has_suffix_self suffix
append-has_suffix (c ∷ before) suffix =
    or-right (same_codes (c ∷ (before ++ suffix)) suffix) (has_suffix (before ++ suffix) suffix)
      (append-has_suffix before suffix)

has_suffix-parts :
    (s suffix : List ℕ) → has_suffix s suffix ≡ true → (before : List ℕ) × (s ≡ before ++ suffix)
has_suffix-parts [] suffix h = ([], (same_codes-equal [] suffix).0 h)
has_suffix-parts (c ∷ cs) suffix h =
    elim (or-either (same_codes (c ∷ cs) suffix) (has_suffix cs suffix) h) [
      | inl whole ↦ ([], (same_codes-equal (c ∷ cs) suffix).0 whole)
      | inr later ↦
          let (before, e) = has_suffix-parts cs suffix later in (c ∷ before, ap (λ x. c ∷ x) e)
    ]

-- The host, or what follows something before a dot.
abbrev pub Below : List ℕ → String → Type 0
Below host a = (host ≡ codes a) ⊎ ((before : List ℕ) × (host ≡ before ++ b'.' ∷ codes a))

under-Below : (host : List ℕ) (a : String) → (under host a ≡ true) ↔ Below host a
under-Below host a = (
  λ h. elim (or-either (same_codes host (codes a)) (has_suffix host (b'.' ∷ codes a)) h) [
    | inl whole ↦ inl ((same_codes-equal host (codes a)).0 whole)
    | inr below ↦ inr (has_suffix-parts host (b'.' ∷ codes a) below)
  ],
  λ b. elim b [
    | inl e ↦
        or-left (same_codes host (codes a)) (has_suffix host (b'.' ∷ codes a))
          ((same_codes-equal host (codes a)).1 e)
    | inr (before, e) ↦
        or-right (same_codes host (codes a)) (has_suffix host (b'.' ∷ codes a))
          (rw e (append-has_suffix before (b'.' ∷ codes a)))
  ],
)

under_any-some :
    (host : List ℕ) (as' : List String)
    → under_any host as' ≡ true
    → (a : String) × Elem a as' × Below host a
under_any-some host [] h = cc
under_any-some host (b ∷ bs) h = elim (or-either (under host b) (under_any host bs) h) [
  | inl this ↦ (b, inl refl, (under-Below host b).0 this)
  | inr later ↦ let (a, m, below) = under_any-some host bs later in (a, inr m, below)
]

some-under_any :
    (host : List ℕ) (as' : List String) (a : String)
    → Elem a as'
    → Below host a
    → under_any host as' ≡ true
some-under_any host [] a m b = absurd m
some-under_any host (x ∷ xs) a (inl e) b =
    or-left (under host x) (under_any host xs) ((under-Below host x).1 (subst (Below host) e b))
some-under_any host (x ∷ xs) a (inr m) b =
    or-right (under host x) (under_any host xs) (some-under_any host xs a m b)

-- Three guards before a test.
guards :
    (a b c d : Bool)
    → ((if a then false else if b then false else if c then false else d) ≡ true)
      ↔ ((a ≡ false) × (b ≡ false) × (c ≡ false) × (d ≡ true))
guards a b c d = ground arith

not_blank : (host : List ℕ) → (same_codes host [] ≡ false) ↔ (host ≢ [])
not_blank [] = (λ h. cc, λ n. absurd (n refl))
not_blank (c ∷ cs) = (λ h e. cc, λ n. refl)

module _ (wide : ℕ → ℕ) (is_ip : List ℕ → Bool) where
  -- A host, in lower case and without the spaces around it, is allowed exactly if it is not blank, is
  -- no address, has no blocked name, and is one of the listed hosts or a subdomain of one.
  pub allowed-Below :
      (host : String)
      → (allowed wide is_ip host ≡ true) ↔ (
          (to_lower wide (trim_space host) ≢ [])
          × (is_ip (to_lower wide (trim_space host)) ≡ false)
          × (blocked_name (to_lower wide (trim_space host)) ≡ false)
          × ((a : String) × Elem a allowed_hosts × Below (to_lower wide (trim_space host)) a))
  unfolding allowed
  allowed-Below host =
      let h = to_lower wide (trim_space host) in
      let all = guards (same_codes h []) (is_ip h) (blocked_name h) (under_any h allowed_hosts) in
      (
        λ e.
            let (blank, ip, blocked, listed) = all.0 e in
            ((not_blank h).0 blank, ip, blocked, under_any-some h allowed_hosts listed),
        λ (blank, ip, blocked, (a, m, below)).
            all.1 ((not_blank h).1 blank, ip, blocked, some-under_any h allowed_hosts a m below),
      )
