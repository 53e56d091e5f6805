-- ===== src/Domain/Status/Table.antt =====
-- The transition function against the table of docs/protocol/IMPLEMENTING.md, stated as a relation.
use vega_trix.Base.{◌≡◌, refl, true, ok, err, arith, ◌⊎◌, inl, inr, ◌↔◌, Bool-cases}
use vega_trix.Domain.Status.{PaymentStatus, eq, transition, can_transition_to, as_str}
use vega_trix.Domain.Error.{illegal_transition}

-- The rows of the documented table, one constructor to an arrow.
pub data Edge : PaymentStatus → PaymentStatus → Type 0 where
  create : Edge PaymentStatus.created PaymentStatus.pending
  ask : Edge PaymentStatus.pending PaymentStatus.requires_action
  start : Edge PaymentStatus.pending PaymentStatus.processing
  reject : Edge PaymentStatus.pending PaymentStatus.failed
  withdraw : Edge PaymentStatus.pending PaymentStatus.cancelled
  lapse : Edge PaymentStatus.pending PaymentStatus.expired
  resume : Edge PaymentStatus.requires_action PaymentStatus.processing
  refuse : Edge PaymentStatus.requires_action PaymentStatus.failed
  abandon : Edge PaymentStatus.requires_action PaymentStatus.cancelled
  run_out : Edge PaymentStatus.requires_action PaymentStatus.expired
  hold : Edge PaymentStatus.processing PaymentStatus.authorized
  settle : Edge PaymentStatus.processing PaymentStatus.settled
  decline : Edge PaymentStatus.processing PaymentStatus.failed
  capture : Edge PaymentStatus.authorized PaymentStatus.settled
  bounce : Edge PaymentStatus.authorized PaymentStatus.failed
  release : Edge PaymentStatus.authorized PaymentStatus.cancelled
  ask_refund : Edge PaymentStatus.settled PaymentStatus.refund_pending
  refund_part : Edge PaymentStatus.settled PaymentStatus.partially_refunded
  refund : Edge PaymentStatus.settled PaymentStatus.refunded
  finish_refund : Edge PaymentStatus.refund_pending PaymentStatus.refunded
  finish_part : Edge PaymentStatus.refund_pending PaymentStatus.partially_refunded
  refund_fails : Edge PaymentStatus.refund_pending PaymentStatus.failed
  refund_rest : Edge PaymentStatus.partially_refunded PaymentStatus.refunded
  ask_rest : Edge PaymentStatus.partially_refunded PaymentStatus.refund_pending

Edge-can_transition_to : {s t : PaymentStatus} → Edge s t → can_transition_to s t ≡ true
unfolding can_transition_to
Edge-can_transition_to create = refl
Edge-can_transition_to _ = refl

can_transition_to-Edge : (s t : PaymentStatus) → can_transition_to s t ≡ true → Edge s t
unfolding can_transition_to
can_transition_to-Edge PaymentStatus.created PaymentStatus.pending h = create
can_transition_to-Edge PaymentStatus.pending PaymentStatus.requires_action h = ask
can_transition_to-Edge PaymentStatus.pending PaymentStatus.processing h = start
can_transition_to-Edge PaymentStatus.pending PaymentStatus.failed h = reject
can_transition_to-Edge PaymentStatus.pending PaymentStatus.cancelled h = withdraw
can_transition_to-Edge PaymentStatus.pending PaymentStatus.expired h = lapse
can_transition_to-Edge PaymentStatus.requires_action PaymentStatus.processing h = resume
can_transition_to-Edge PaymentStatus.requires_action PaymentStatus.failed h = refuse
can_transition_to-Edge PaymentStatus.requires_action PaymentStatus.cancelled h = abandon
can_transition_to-Edge PaymentStatus.requires_action PaymentStatus.expired h = run_out
can_transition_to-Edge PaymentStatus.processing PaymentStatus.authorized h = hold
can_transition_to-Edge PaymentStatus.processing PaymentStatus.settled h = settle
can_transition_to-Edge PaymentStatus.processing PaymentStatus.failed h = decline
can_transition_to-Edge PaymentStatus.authorized PaymentStatus.settled h = capture
can_transition_to-Edge PaymentStatus.authorized PaymentStatus.failed h = bounce
can_transition_to-Edge PaymentStatus.authorized PaymentStatus.cancelled h = release
can_transition_to-Edge PaymentStatus.settled PaymentStatus.refund_pending h = ask_refund
can_transition_to-Edge PaymentStatus.settled PaymentStatus.partially_refunded h = refund_part
can_transition_to-Edge PaymentStatus.settled PaymentStatus.refunded h = refund
can_transition_to-Edge PaymentStatus.refund_pending PaymentStatus.refunded h = finish_refund
can_transition_to-Edge PaymentStatus.refund_pending PaymentStatus.partially_refunded h = finish_part
can_transition_to-Edge PaymentStatus.refund_pending PaymentStatus.failed h = refund_fails
can_transition_to-Edge PaymentStatus.partially_refunded PaymentStatus.refunded h = refund_rest
can_transition_to-Edge PaymentStatus.partially_refunded PaymentStatus.refund_pending h = ask_rest
can_transition_to-Edge _ _ h = cc

pub eq_refl : (s : PaymentStatus) → eq s s ≡ true
unfolding eq
eq_refl PaymentStatus.created = refl
eq_refl _ = refl

eq-eq : (s t : PaymentStatus) → eq s t ≡ true → s ≡ t
unfolding eq
eq-eq s t h = ground arith

transition_self : (s : PaymentStatus) → transition s s ≡ ok s
unfolding transition
transition_self s = rw (eq_refl s)

transition_of_Edge : {s t : PaymentStatus} → Edge s t → transition s t ≡ ok t
unfolding transition
transition_of_Edge {s} {t} e = ground (arith, Edge-can_transition_to e, eq-eq s t)

pub Edge-of_transition :
    (s t u : PaymentStatus) → transition s t ≡ ok u → (u ≡ t) × ((s ≡ t) ⊎ Edge s t)
unfolding transition
Edge-of_transition s t u h = elim (Bool-cases (eq s t)) [
  | inl same ↦ (ground (arith, eq-eq s t), inl (eq-eq s t same))
  | inr new ↦ elim (Bool-cases (can_transition_to s t)) [
    | inl allowed ↦ (ground arith, inr (can_transition_to-Edge s t allowed))
    | inr refused ↦ cc (rw (new, refused) at h)
  ]
]

pub transition_refused :
    (s t : PaymentStatus)
    → ¬ ((s ≡ t) ⊎ Edge s t)
    → transition s t ≡ err (illegal_transition (as_str s) (as_str t))
unfolding transition
transition_refused s t no_edge = elim (Bool-cases (eq s t)) [
  | inl same ↦ absurd (no_edge (inl (eq-eq s t same)))
  | inr new ↦ elim (Bool-cases (can_transition_to s t)) [
    | inl allowed ↦ absurd (no_edge (inr (can_transition_to-Edge s t allowed)))
    | inr refused ↦ rw (new, refused)
  ]
]

transition-Allowed : (s t : PaymentStatus) → (s ≡ t) ⊎ Edge s t → transition s t ≡ ok t
transition-Allowed s t (inl same) = rw same (transition_self t)
transition-Allowed s t (inr e) = transition_of_Edge e

-- A change of status is accepted exactly when it keeps the status or is a row of the documented
-- table, the new status is then the one that was asked for, and any other change is refused with
-- both names.
pub transition-Edge :
    (s t : PaymentStatus)
    → ((transition s t ≡ ok t) ↔ ((s ≡ t) ⊎ Edge s t))
      × (¬ ((s ≡ t) ⊎ Edge s t) → transition s t ≡ err (illegal_transition (as_str s) (as_str t)))
transition-Edge s t =
    ((λ h. (Edge-of_transition s t t h).1, transition-Allowed s t), transition_refused s t)
