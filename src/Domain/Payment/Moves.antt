-- ===== src/Domain/Payment/Moves.antt =====
-- What `PaymentRequest::transition` changes.
use vega_trix.Base.{◌≡◌, bind-ok, ok, err, arith, ◌⊎◌}
use vega_trix.Base.Machine.{Instant, i32_add}
use vega_trix.Domain.Error.{illegal_transition}
use vega_trix.Domain.Status
use vega_trix.Domain.Status.{PaymentStatus}
use vega_trix.Domain.Status.Table.{Edge, Edge-of_transition, transition-Edge}
use vega_trix.Domain.Payment.{PaymentRequest, transition}

-- The payment with the next status, a new time stamp and the next version.
abbrev pub moved_to : PaymentRequest → PaymentStatus → Instant → PaymentRequest
moved_to p next now = record p { status = next; updated_at = now; version = i32_add p.version 1 }

abbrev pub Allowed : PaymentStatus → PaymentStatus → Type 0
Allowed s t = (s ≡ t) ⊎ Edge s t

pub transition-Allowed :
    (p : PaymentRequest) (next : PaymentStatus) (now : Instant)
    → Allowed p.status next
    → transition p next now ≡ ok (moved_to p next now)
unfolding transition
transition-Allowed p next now h = rw ((transition-Edge p.status next).0.1 h)

pub transition_inversion :
    (p m : PaymentRequest) (next : PaymentStatus) (now : Instant)
    → transition p next now ≡ ok m
    → Allowed p.status next × (m ≡ moved_to p next now)
unfolding transition
transition_inversion p m next now h =
    let (status, e, made) = bind-ok (Status.transition p.status next) _ h in
    let (same, allowed) = Edge-of_transition p.status next status e in
    (allowed, ground (arith, made, same))

-- A payment refuses a change of status exactly as the status does.
pub transition_refused :
    (p : PaymentRequest) (next : PaymentStatus) (now : Instant)
    → ¬ Allowed p.status next
    → transition p next now ≡ err (illegal_transition (Status.as_str p.status) (Status.as_str next))
unfolding transition
transition_refused p next now h = rw ((transition-Edge p.status next).1 h)
