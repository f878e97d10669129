-- ===== src/Gateway/Limits.antt =====
-- gateway/internal/limits/limits.go: token buckets by key, and the two limits of the gateway.
-- A float64 stands by its bits, and what the machine computes with them is a parameter. The clock is an
-- argument: the reading of `r.now()`, in nanoseconds.
pub mod Bounds
pub mod Order
use sl_open_bark.Common.{
  ℕ, ◌-◌, String, Bool, true, false, not, Option, none, some, [], ltb, if◌then◌else◌, ◌==◌,
  string_eq,
}
use sl_open_bark.Common.Dict.{Dict, lookup, insert}

-- The arithmetic of float64: its values are the bits of numbers. `seconds` is `Duration.Seconds`, of
-- nanoseconds.
pub record Arithmetic : Type 0 where
  pub of_int : ℕ → ℕ
  pub add : ℕ → ℕ → ℕ
  pub sub : ℕ → ℕ → ℕ
  pub mul : ℕ → ℕ → ℕ
  pub div : ℕ → ℕ → ℕ
  pub greater : ℕ → ℕ → Bool
  pub at_least : ℕ → ℕ → Bool
  pub seconds : ℕ → ℕ

-- `tokens` is a float64.
pub record Bucket : Type 0 where
  pub tokens : ℕ
  pub last : ℕ

-- `rate`, of tokens a second, and `burst` are of float64.
pub record RateLimiter : Type 0 where
  pub buckets : Dict Bucket
  pub rate : ℕ
  pub burst : ℕ

-- A missing limiter is a disabled dimension.
pub record Limiter : Type 0 where
  pub committee : Option RateLimiter
  pub global : Option RateLimiter

-- `r.buckets[key]`, or a full bucket
abbrev pub or_full : ℕ → ℕ → Option Bucket → Bucket
or_full burst now none = record { tokens = burst; last = now }
or_full burst now (some b) = b

abbrev pub bucket_at : RateLimiter → String → ℕ → Bucket
bucket_at r key now = or_full r.burst now (lookup key r.buckets)

abbrev pub committee_key : String → String
committee_key committee = if committee == "" then "_unknown" else committee

module _ (F : Arithmetic) where
  pub new_rate_limiter : ℕ → ℕ → RateLimiter
  new_rate_limiter per_minute burst = record {
    buckets = [];
    rate = F.div (F.of_int per_minute) (F.of_int 60);
    burst = F.of_int (if ltb burst 1 then 1 else burst);
  }

  abbrev pub cap : ℕ → ℕ → ℕ
  cap burst tokens = if F.greater tokens burst then burst else tokens

  -- The tokens of the elapsed time, if the clock went on: its seconds are positive exactly then.
  unfoldable pub refill : ℕ → ℕ → ℕ → Bucket → Bucket
  refill rate burst now b =
      if ltb b.last now
      then record {
        tokens = cap burst (F.add b.tokens (F.mul (F.seconds (now - b.last)) rate));
        last = now;
      }
      else b

  unfoldable pub spend : Bucket → Bool × Bucket
  spend b =
      if F.at_least b.tokens (F.of_int 1)
      then (true, record b { tokens = F.sub b.tokens (F.of_int 1) })
      else (false, b)

  unfoldable pub step_bucket : ℕ → ℕ → ℕ → Bucket → Bool × Bucket
  step_bucket rate burst now b = spend (refill rate burst now b)

  unfoldable pub allow_key : RateLimiter → String → ℕ → Bool × RateLimiter
  allow_key r key now =
      let (allowed, b) = step_bucket r.rate r.burst now (bucket_at r key now) in
      (allowed, record r { buckets = insert key b r.buckets })

  abbrev enabled : ℕ → ℕ → Option RateLimiter
  enabled per_minute burst =
      if ltb 0 per_minute then some (new_rate_limiter per_minute burst) else none

  unfoldable pub new_limiter : ℕ → ℕ → ℕ → ℕ → Limiter
  new_limiter committee_per_minute committee_burst global_per_minute global_burst = record {
    committee = enabled committee_per_minute committee_burst;
    global = enabled global_per_minute global_burst;
  }

  -- One dimension: allowed if it is disabled.
  unfoldable pub allow_in : Option RateLimiter → String → ℕ → Bool × Option RateLimiter
  allow_in none key now = (true, none)
  allow_in (some r) key now = let (allowed, r') = allow_key r key now in (allowed, some r')

  -- The global limiter is asked, and changed, only if the committee's limiter allows the call.
  abbrev pub then_global : Limiter → ℕ → Bool × Option RateLimiter → Bool × Limiter
  then_global l now (false, c) = (false, record l { committee = c })
  then_global l now (true, c) =
      let (allowed, g) = allow_in l.global "_global" now in
      (allowed, record { committee = c; global = g })

  -- `now` and `later` are the readings of the two limiters' clocks.
  pub allow : Limiter → String → ℕ → ℕ → Bool × Limiter
  allow l committee now later =
      then_global l later (allow_in l.committee (committee_key committee) now)
