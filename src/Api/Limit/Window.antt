-- ===== src/Api/Limit/Window.antt =====
-- How many requests pass while a counter lives (crates/openpay-api/src/middleware/mod.rs).
use vega_trix.Base.{ℕ, zero, suc, ◌+◌, ◌≡◌, refl, Bool, true, false, min, max, arith}
use vega_trix.Api.Limit.{
  Fate, run, too_many_requests, limiter_unavailable, unconnected, failing, counted, enforce,
  rate_limit, rate_limit_authenticated,
}

abbrev pub runs : Fate → ℕ
runs run = 1
runs too_many_requests = 0
runs limiter_unavailable = 0

-- The requests that run among the first n of a counter that starts at 0 and counts each of them.
unfoldable pub served : Bool → ℕ → ℕ → ℕ
served production limit zero = 0
served production limit (suc n) =
    runs (rate_limit_authenticated production (enforce limit (counted (suc n))))
    + served production limit n

-- While one counter lives, of n requests exactly the first run, as many as the limit, and at least one.
-- With the counter out of reach a request of a merchant is refused in production and runs elsewhere, and
-- one to the payment page always runs.
pub served_lem :
    (limit n : ℕ) (production : Bool)
    → (served production limit n ≡ min n (max limit 1))
      × (rate_limit_authenticated true (enforce limit failing) ≡ limiter_unavailable)
      × (rate_limit_authenticated true (enforce limit unconnected) ≡ limiter_unavailable)
      × (rate_limit_authenticated false (enforce limit failing) ≡ run)
      × (rate_limit_authenticated false (enforce limit unconnected) ≡ run)
      × (rate_limit (enforce limit failing) ≡ run)
      × (rate_limit (enforce limit unconnected) ≡ run)
unfolding served enforce rate_limit rate_limit_authenticated
served_lem limit n production = (count n, refl, refl, refl, refl, refl, refl)
  where
    count : (n : ℕ) → served production limit n ≡ min n (max limit 1)
    count zero = ground arith
    count (suc n) = ground (arith, count n)
