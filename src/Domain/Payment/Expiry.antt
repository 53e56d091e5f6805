-- ===== src/Domain/Payment/Expiry.antt =====
-- Which payments lapse, and when.
use vega_trix.Base.{◌≡◌, ◌≤◌, ◌⊎◌, ◌↔◌, some, arith}
use vega_trix.Base.Machine.{Instant}
use vega_trix.Domain.Status.{PaymentStatus, can_transition_to, is_terminal, is_settled_family}
use vega_trix.Domain.Payment.{PaymentRequest, expiry_target}

-- A payment is to be expired exactly when its time has come and it is pending or waits for the payer
-- to act; a payment that is processing is never expired.
pub expiry_target_iff :
    (p : PaymentRequest) (now : Instant)
    → (expiry_target p now ≡ some PaymentStatus.expired) ↔ (
        (p.expires_at ≤ now)
        × ((p.status ≡ PaymentStatus.pending) ⊎ (p.status ≡ PaymentStatus.requires_action)))
unfolding expiry_target can_transition_to is_terminal is_settled_family
expiry_target_iff p now = (λ h. ground arith, λ h. ground arith)
