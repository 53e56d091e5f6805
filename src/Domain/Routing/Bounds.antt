-- ===== src/Domain/Routing/Bounds.antt =====
-- When the router may go on to the next connector.
use vega_trix.Base.{ℕ, ◌≡◌, String, true, ◌<◌, ◌↔◌, arith}
use vega_trix.Domain.Routing.{FallbackSpec, should_try_next, allows_failure, max}

-- The router goes on exactly when the policy enables it, a candidate is left, fewer attempts were
-- made than the policy allows (at least one is always allowed) and the failure code is listed.
should_try_next_iff :
    (spec : FallbackSpec) (code : String) (used remaining : ℕ)
    → (should_try_next spec code used remaining ≡ true) ↔ (
        (spec.enabled ≡ true)
        × (0 < remaining)
        × (used < max spec.max_attempts 1)
        × (allows_failure spec code ≡ true))
unfolding should_try_next
should_try_next_iff spec code used remaining = (λ h. ground arith, λ h. ground arith)
