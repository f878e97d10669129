-- ===== src/Gateway/Limits/Bounds.antt =====
-- limits.go: how many calls a key can make at once.
use Prim.Native.Nat.{min, max}
use mathlib.Core.Path.{subst}
use sl_open_bark.Common.{
  ℕ, zero, suc, ◌≤◌, String, true, false, List, [], ◌∷◌, some, arith, ◌≡◌, refl, ap, ◌∙◌, ltb, leb,
  if◌then◌else◌, ◌==◌, string_eq, eq_of_==, Bool-cases, inl, inr, ◌+◌, ==_refl,
}
use sl_open_bark.Common.Dict.{lookup, insert, lookup-insert}
use sl_open_bark.Gateway.Limits.{
  Arithmetic, Bucket, RateLimiter, refill, spend, step_bucket, bucket_at, or_full, allow_key,
  new_rate_limiter,
}

-- The numbers up to 2^53 are exact in float64: so are their comparison with 1 and the subtraction of 1.
pub record Exact (F : Arithmetic) : Type 0 where
  pub compared : (n : ℕ) → n ≤ 9007199254740992 → F.at_least (F.of_int n) (F.of_int 1) ≡ leb 1 n
  pub less_one :
      (n : ℕ) → suc n ≤ 9007199254740992 → F.sub (F.of_int (suc n)) (F.of_int 1) ≡ F.of_int n

-- How many of the keys are this one.
abbrev pub count : String → List String → ℕ
count key [] = 0
count key (j ∷ js) = (if key == j then 1 else 0) + count key js

module _ (F : Arithmetic) where
  -- How many calls with the key are allowed, of calls with these keys at one reading of the clock.
  pub allowed : String → ℕ → RateLimiter → List String → ℕ
  allowed key now r [] = 0
  allowed key now r (j ∷ js) =
      let (passes, s) = allow_key F r j now in
      (if key == j then (if passes then 1 else 0) else 0) + allowed key now s js

  holds : ℕ → ℕ → Bucket
  holds n now = record { tokens = F.of_int n; last = now }

  bucket_at-hit :
      (r : RateLimiter) (key : String) (now : ℕ)
      → bucket_at (allow_key F r key now).1 key now
        ≡ (step_bucket F r.rate r.burst now (bucket_at r key now)).1
  unfolding allow_key
  bucket_at-hit r key now =
      let b = (step_bucket F r.rate r.burst now (bucket_at r key now)).1 in
      let found : lookup key (insert key b r.buckets) ≡ some b =
        lookup-insert key key b r.buckets ∙ rw (==_refl key) refl in
      ap (or_full r.burst now) found

  bucket_at-miss :
      (r : RateLimiter) (key j : String) (now : ℕ)
      → (key == j) ≡ false
      → bucket_at (allow_key F r j now).1 key now ≡ bucket_at r key now
  unfolding allow_key
  bucket_at-miss r key j now h =
      let b = (step_bucket F r.rate r.burst now (bucket_at r j now)).1 in
      let kept : lookup key (insert j b r.buckets) ≡ lookup key r.buckets =
        lookup-insert key j b r.buckets ∙ rw h refl in
      ap (or_full r.burst now) kept

  refilled : (rate burst now n : ℕ) → refill F rate burst now (holds n now) ≡ holds n now
  unfolding refill holds
  refilled rate burst now n = ground arith

  module _ (exact : Exact F) where
    spent :
        (now n : ℕ) → suc n ≤ 9007199254740992 → spend F (holds (suc n) now) ≡ (true, holds n now)
    unfolding spend holds
    spent now n h =
        let enough : leb 1 (suc n) ≡ true = ground arith in
        rw (exact.compared (suc n) h, exact.less_one n h, enough) refl

    unspent : (now : ℕ) → spend F (holds 0 now) ≡ (false, holds 0 now)
    unfolding spend holds
    unspent now = rw (exact.compared 0 (omega arith)) refl

    -- A bucket of whole tokens gives one if it has one.
    taken :
        (r : RateLimiter) (key : String) (now n : ℕ)
        → suc n ≤ 9007199254740992
        → bucket_at r key now ≡ holds (suc n) now
        → ((allow_key F r key now).0 ≡ true)
          × (bucket_at (allow_key F r key now).1 key now ≡ holds n now)
    unfolding allow_key step_bucket
    taken r key now n h e =
        let out =
          ap (step_bucket F r.rate r.burst now) e
          ∙ ap (spend F) (refilled r.rate r.burst now (suc n))
          ∙ spent now n h in
        (ap (λ x. x.0) out, bucket_at-hit r key now ∙ ap (λ x. x.1) out)

    refused :
        (r : RateLimiter) (key : String) (now : ℕ)
        → bucket_at r key now ≡ holds 0 now
        → ((allow_key F r key now).0 ≡ false)
          × (bucket_at (allow_key F r key now).1 key now ≡ holds 0 now)
    unfolding allow_key step_bucket
    refused r key now e =
        let out =
          ap (step_bucket F r.rate r.burst now) e
          ∙ ap (spend F) (refilled r.rate r.burst now 0)
          ∙ unspent now in
        (ap (λ x. x.0) out, bucket_at-hit r key now ∙ ap (λ x. x.1) out)

    abbrev Counted : String → ℕ → ℕ → RateLimiter → List String → Type 0
    Counted key now n r keys = allowed key now r keys ≡ min (count key keys) n

    -- The first of the calls is with the key.
    Counted-hit :
        (key : String) (now n : ℕ) (r : RateLimiter) (js : List String)
        → n ≤ 9007199254740992
        → bucket_at r key now ≡ holds n now
        → ((m : ℕ) (s : RateLimiter)
            → m ≤ 9007199254740992
            → bucket_at s key now ≡ holds m now
            → Counted key now m s js)
        → Counted key now n r (key ∷ js)
    unfolding allowed
    Counted-hit key now zero r js h e rest =
        let (denied, left) = refused r key now e in
        let later = rest 0 (allow_key F r key now).1 h left in
        rw (==_refl key, denied) (ground (arith, later))
    Counted-hit key now (suc n) r js h e rest =
        let (passed, left) = taken r key now n h e in
        let later = rest n (allow_key F r key now).1 (omega (arith, h)) left in
        rw (==_refl key, passed) (ground (arith, later))

    allowed-holds :
        (key : String) (now n : ℕ) (r : RateLimiter) (keys : List String)
        → n ≤ 9007199254740992
        → bucket_at r key now ≡ holds n now
        → Counted key now n r keys
    unfolding allowed
    allowed-holds key now n r [] h e = ground arith
    allowed-holds key now n r (j ∷ js) h e = elim (Bool-cases (key == j)) [
      | inl hit ↦
          subst (λ i. Counted key now n r (i ∷ js)) (eq_of_== key j hit)
            (Counted-hit key now n r js h e (λ m s. allowed-holds key now m s js))
      | inr miss ↦
          let later =
            allowed-holds key now n (allow_key F r j now).1 js h
              (bucket_at-miss r key j now miss ∙ e) in
          rw miss (ground (arith, later))
    ]

    -- Of the calls to a new limiter at one reading of its clock, in any order and among calls with
    -- other keys, exactly as many with a key are allowed as there are, but no more than the burst, if
    -- this is at most 2^53 and the numbers up to there are exact; a burst below 1 counts as 1.
    pub allowed-new_rate_limiter :
        (key : String) (per_minute burst now : ℕ) (keys : List String)
        → burst ≤ 9007199254740992
        → allowed key now (new_rate_limiter F per_minute burst) keys
          ≡ min (count key keys) (max 1 burst)
    unfolding new_rate_limiter lookup holds
    allowed-new_rate_limiter key per_minute burst now keys h =
        let whole : (if ltb burst 1 then 1 else burst) ≡ max 1 burst = ground arith in
        allowed-holds key now (if ltb burst 1 then 1 else burst) _ keys (ground arith) refl
        ∙ ap (min (count key keys)) whole
