-- ===== src/Persistence/Payments/Rows.antt =====
-- The rows of `payment_requests` under the `UPDATE` of `transition_payment`: which row it touches and
-- what it leaves alone.
use vega_trix.Base.{
  ◌<◌, ℕ, ◌≡◌, refl, ◌≢◌, true, false, some, List, [], ◌∷◌, arith, any, find, count, ◌==◌,
}
use vega_trix.Base.Machine.{i32_mod}
use vega_trix.Domain.Payment.{PaymentRequest}
use vega_trix.Persistence.Payments.{has_id, at_version, with_status, update_where}

-- No two payments have one identifier, and every version fits its 32 bits.
abbrev pub IsKeyed : List PaymentRequest → Type 0
IsKeyed [] = Unit
IsKeyed (p ∷ ps) = (any (λ q. q.id == p.id) ps ≡ false) × (p.version < i32_mod) × IsKeyed ps

count_absent :
    (tenant id version : ℕ) (ps : List PaymentRequest)
    → any (λ q. q.id == id) ps ≡ false
    → count (at_version tenant id version) ps ≡ 0
count_absent tenant id version [] h = refl
count_absent tenant id version (q ∷ ps) h = ground (arith, count_absent tenant id version ps)

pub find_present :
    (tenant id : ℕ) (ps : List PaymentRequest) {p : PaymentRequest}
    → find (has_id tenant id) ps ≡ some p
    → (p.id ≡ id) × (p.tenant_id ≡ tenant) × (any (λ q. q.id == id) ps ≡ true)
find_present tenant id [] h = cc
find_present tenant id (q ∷ ps) {p} h = ground (arith, find_present tenant id ps {p = p})

pub count_found :
    (tenant id : ℕ) (ps : List PaymentRequest) {p : PaymentRequest}
    → IsKeyed ps
    → find (has_id tenant id) ps ≡ some p
    → count (at_version tenant id p.version) ps ≡ 1
count_found tenant id [] keyed h = cc
count_found tenant id (q ∷ ps) {p} keyed h = ground (
  arith,
  count_found tenant id ps {p = p} keyed.2,
  count_absent tenant id p.version ps,
  find_present tenant id ps {p = p},
)

-- The row that was found holds the new columns afterwards.
pub find_updated :
    (tenant id : ℕ) (ps : List PaymentRequest) (p moved : PaymentRequest)
    → find (has_id tenant id) ps ≡ some p
    → find (has_id tenant id) (update_where (at_version tenant id p.version) moved ps)
      ≡ some (with_status moved p)
find_updated tenant id [] p moved h = cc
find_updated tenant id (q ∷ ps) p moved h = ground (arith, find_updated tenant id ps p moved)

-- Every other row is left alone.
pub find_others :
    (tenant id version : ℕ) (moved : PaymentRequest) (t i : ℕ) (ps : List PaymentRequest)
    → i ≢ id
    → find (has_id t i) (update_where (at_version tenant id version) moved ps)
      ≡ find (has_id t i) ps
find_others tenant id version moved t i [] ne = refl
find_others tenant id version moved t i (q ∷ ps) ne =
    ground (arith, find_others tenant id version moved t i ps)

any-update_where :
    (k tenant id version : ℕ) (moved : PaymentRequest) (ps : List PaymentRequest)
    → any (λ q. q.id == k) (update_where (at_version tenant id version) moved ps)
      ≡ any (λ q. q.id == k) ps
any-update_where k tenant id version moved [] = refl
any-update_where k tenant id version moved (q ∷ ps) =
    ground (arith, any-update_where k tenant id version moved ps)

pub update_where-IsKeyed :
    (tenant id version : ℕ) (moved : PaymentRequest) (ps : List PaymentRequest)
    → moved.version < i32_mod
    → IsKeyed ps
    → IsKeyed (update_where (at_version tenant id version) moved ps)
update_where-IsKeyed tenant id version moved [] small keyed = tt
update_where-IsKeyed tenant id version moved (q ∷ ps) small keyed = ground (
  arith,
  update_where-IsKeyed tenant id version moved ps,
  any-update_where q.id tenant id version moved ps,
)

pub find_small :
    (tenant id : ℕ) (ps : List PaymentRequest) {p : PaymentRequest}
    → IsKeyed ps
    → find (has_id tenant id) ps ≡ some p
    → p.version < i32_mod
find_small tenant id [] keyed h = cc
find_small tenant id (q ∷ ps) {p} keyed h = ground (arith, find_small tenant id ps {p = p} keyed.2)
