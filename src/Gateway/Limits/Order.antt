-- ===== src/Gateway/Limits/Order.antt =====
-- limits.go: the order of the committee's limit and the global one.
use sl_open_bark.Common.{
  ℕ, String, Bool, true, false, Option, ◌≡◌, refl, ◌&&◌, if◌then◌else◌, string_eq,
}
use sl_open_bark.Gateway.Limits.{
  Arithmetic, RateLimiter, Limiter, allow_in, allow, committee_key, then_global,
}

module _ (F : Arithmetic) where
  then_global_lem :
      (l : Limiter) (later : ℕ) (c : Bool × Option RateLimiter)
      → let g = allow_in F l.global "_global" later in
        ((then_global F l later c).0 ≡ (c.0 && g.0))
        × ((then_global F l later c).1.committee ≡ c.1)
        × ((then_global F l later c).1.global ≡ (if c.0 then g.1 else l.global))
  then_global_lem l later (false, c) = (refl, refl, refl)
  then_global_lem l later (true, c) = (refl, refl, refl)

  -- A call passes exactly if it passes the limits that are enabled; the committee's limiter is changed
  -- whatever the global one says, and the global one is asked, and so changed, only if the committee's
  -- allowed the call.
  pub allow_lem :
      (l : Limiter) (committee : String) (now later : ℕ)
      → let c = allow_in F l.committee (committee_key committee) now in
        let g = allow_in F l.global "_global" later in
        ((allow F l committee now later).0 ≡ (c.0 && g.0))
        × ((allow F l committee now later).1.committee ≡ c.1)
        × ((allow F l committee now later).1.global ≡ (if c.0 then g.1 else l.global))
  unfolding allow
  allow_lem l committee now later =
      then_global_lem l later (allow_in F l.committee (committee_key committee) now)
