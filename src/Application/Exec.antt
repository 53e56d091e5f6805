-- ===== src/Application/Exec.antt =====
-- A service call: the tables, the clock and the source of UUIDs, with errors. What was committed before
-- an error stays committed, so the world comes back beside the error too. The database answers every
-- query; losing the connection is not modelled.
use vega_trix.Base.{◌≡◌, refl, ℕ, suc, List, Result, ok, err, map_err}
use vega_trix.Base.Machine.{Uuid, Instant}
use vega_trix.Application.Ports.{ApplicationError, repository}
use vega_trix.Persistence.Db.{Db, Query}

pub record World : Type 0 where
  pub db : Db
  -- the k-th UUID that is drawn, and how many were
  pub uuids : ℕ → Uuid
  pub drawn : ℕ
  -- the k-th reading of the clock, and how many there were
  pub clock : ℕ → Instant
  pub read : ℕ
  -- the k-th nonce that is generated, and how many were
  pub nonces : ℕ → List ℕ
  pub rolled : ℕ

abbrev pub Exec : Type 0 → Type 0
Exec A = World → Result ApplicationError A × World

module _ {A : Type 0} where
  abbrev pub pure : A → Exec A
  pure a w = (ok a, w)

  abbrev pub raise : ApplicationError → Exec A
  raise e w = (err e, w)

  abbrev pub lift : Result ApplicationError A → Exec A
  lift r w = (r, w)

  -- A query or a transaction, with `?`.
  abbrev pub query : Query A → Exec A
  query q w = let (r, db') = q w.db in (map_err repository r, record w { db = db' })

-- The rest of a chain after a step, unless the step failed.
abbrev pub continue : {A B : Type 0} → Result ApplicationError A → (A → Exec B) → Exec B
continue (ok a) f w = f a w
continue (err e) f w = (err e, w)

infixl 5 ◌>>=◌ ◌>>◌
abbrev pub ◌>>=◌ : {A B : Type 0} → Exec A → (A → Exec B) → Exec B
◌>>=◌ m f w = let (r, w') = m w in continue r f w'

abbrev pub ◌>>◌ : {A B : Type 0} → Exec A → Exec B → Exec B
m >> k = m >>= λ _. k

-- A call that succeeds has succeeded at its first step.
pub bind-ok :
    {A B : Type 0} (m : Exec A) (f : A → Exec B) (w : World) {b : B} {w' : World}
    → (m >>= f) w ≡ (ok b, w')
    → (a : A) × (v : World) × (m w ≡ (ok a, v)) × (f a v ≡ (ok b, w'))
bind-ok {A} {B} m f w {b} {w'} h = go (m w) refl h
  where
    go :
        (r : Result ApplicationError A × World)
        → m w ≡ r
        → continue r.0 f r.1 ≡ (ok b, w')
        → (a : A) × (v : World) × (m w ≡ (ok a, v)) × (f a v ≡ (ok b, w'))
    go (ok a, v) e k = (a, v, e, k)
    go (err e', v) e k = cc

-- `Clock::now`
abbrev pub now : Exec Instant
now w = (ok (w.clock w.read), record w { read = suc w.read })

-- `Uuid::now_v7`
abbrev pub draw : Exec Uuid
draw w = (ok (w.uuids w.drawn), record w { drawn = suc w.drawn })

-- `generate_nonce`
abbrev pub roll : Exec (List ℕ)
roll w = (ok (w.nonces w.rolled), record w { rolled = suc w.rolled })
