-- ===== src/Domain/Status/Lifecycle.antt =====
-- What every history of accepted status changes keeps (crates/openpay-domain/src/status.rs).
use vega_trix.Base.{◌≡◌, refl, sym, Bool, true, false, ◌≢◌, ◌⊎◌, inl, inr, ◌∙◌, ap, ok, arith}
use vega_trix.Domain.Status.{PaymentStatus, transition, is_terminal, is_settled_family}
use vega_trix.Domain.Status.Table.{Edge, Edge-of_transition}

-- A history: each change is one that `transition` accepted.
pub data Reach (s : PaymentStatus) : PaymentStatus → Type 0 where
  here : Reach s s
  next : (t u : PaymentStatus) {v : PaymentStatus} → Reach s t → transition t u ≡ ok v → Reach s v

-- The statuses from which a payment can still lapse or be abandoned before a connector is asked.
abbrev pub is_open : PaymentStatus → Bool
is_open PaymentStatus.created = true
is_open PaymentStatus.pending = true
is_open PaymentStatus.requires_action = true
is_open _ = false

terminal-Edge : {s t : PaymentStatus} → Edge s t → is_terminal s ≡ false
unfolding is_terminal
terminal-Edge Edge.create = refl
terminal-Edge _ = refl

settled-Edge :
    {s t : PaymentStatus}
    → Edge s t
    → is_settled_family s ≡ true
    → (is_settled_family t ≡ true) ⊎ (t ≡ PaymentStatus.failed)
unfolding is_settled_family
settled-Edge Edge.refund_fails h = inr refl
settled-Edge Edge.create h = cc
settled-Edge _ h = ground arith

closed-Edge :
    {s t : PaymentStatus}
    → Edge s t
    → is_open s ≡ false
    → (is_open t ≡ false) × (t ≢ PaymentStatus.expired)
closed-Edge Edge.create h = cc
closed-Edge _ h = ground arith

-- A history from a terminal status never leaves it.
Reach-terminal : {s t : PaymentStatus} → is_terminal s ≡ true → Reach s t → t ≡ s
Reach-terminal h here = refl
Reach-terminal {s} h (next t u {v} r e) =
    let stay = Reach-terminal h r in let (to, how) = Edge-of_transition t u v e in last how to stay
  where
    last : (t ≡ u) ⊎ Edge t u → v ≡ u → t ≡ s → v ≡ s
    last (inl same) to stay = to ∙ sym same ∙ stay
    last (inr edge) to stay = cc (terminal-Edge edge, ap is_terminal stay, h)

-- Once a payment has settled, every later status is in the settled family, or the payment has failed
-- for good.
pub Reach-settled :
    {s t : PaymentStatus}
    → is_settled_family s ≡ true
    → Reach s t
    → (is_settled_family t ≡ true) ⊎ (t ≡ PaymentStatus.failed)
unfolding is_terminal
Reach-settled h here = inl h
Reach-settled h (next t u {v} r e) =
    let (to, how) = Edge-of_transition t u v e in last (Reach-settled h r) to how
  where
    from_failed : {x y : PaymentStatus} → Edge x y → x ≢ PaymentStatus.failed
    from_failed edge is_failed = cc (terminal-Edge edge, ap is_terminal is_failed)

    last :
        (is_settled_family t ≡ true) ⊎ (t ≡ PaymentStatus.failed)
        → v ≡ u
        → (t ≡ u) ⊎ Edge t u
        → (is_settled_family v ≡ true) ⊎ (v ≡ PaymentStatus.failed)
    last before to (inl same) = rw (to ∙ sym same) before
    last (inl settled) to (inr edge) = rw to (settled-Edge edge settled)
    last (inr is_failed) to (inr edge) = absurd (from_failed edge is_failed)

-- Once a connector has been asked, a payment that has not expired never expires and never goes back
-- to a status that can.
Reach-closed :
    {s t : PaymentStatus}
    → is_open s ≡ false
    → s ≢ PaymentStatus.expired
    → Reach s t
    → (is_open t ≡ false) × (t ≢ PaymentStatus.expired)
Reach-closed h alive here = (h, alive)
Reach-closed h alive (next t u {v} r e) =
    let (to, how) = Edge-of_transition t u v e in last (Reach-closed h alive r) to how
  where
    last :
        (is_open t ≡ false) × (t ≢ PaymentStatus.expired)
        → v ≡ u
        → (t ≡ u) ⊎ Edge t u
        → (is_open v ≡ false) × (v ≢ PaymentStatus.expired)
    last before to (inl same) = rw (to ∙ sym same) before
    last before to (inr edge) = rw to (closed-Edge edge before.0)
