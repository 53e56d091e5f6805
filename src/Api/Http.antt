-- ===== src/Api/Http.antt =====
-- A handler: the world of the services with the errors of the API.
use vega_trix.Base.{◌≡◌, refl, Result, ok, err, map_err}
use vega_trix.Application.Exec.{World, Exec}
use vega_trix.Api.Error.{ApiError, from_application}

abbrev pub Http : Type 0 → Type 0
Http A = World → Result ApiError A × World

module _ {A : Type 0} where
  abbrev pub pure : A → Http A
  pure a w = (ok a, w)

  abbrev pub raise : ApiError → Http A
  raise e w = (err e, w)

  abbrev pub lift : Result ApiError A → Http A
  lift r w = (r, w)

  -- A call of a service, with `map_err(ApiError::from)`.
  abbrev pub service : Exec A → Http A
  service m w = let (r, w') = m w in (map_err from_application r, w')

abbrev pub continue : {A B : Type 0} → Result ApiError A → (A → Http B) → Http B
continue (ok a) f w = f a w
continue (err e) f w = (err e, w)

infixl 5 ◌>>=◌ ◌>>◌
abbrev pub ◌>>=◌ : {A B : Type 0} → Http A → (A → Http B) → Http B
◌>>=◌ m f w = let (r, w') = m w in continue r f w'

abbrev pub ◌>>◌ : {A B : Type 0} → Http A → Http B → Http B
m >> k = m >>= λ _. k

-- A handler that succeeds has succeeded at its first step.
pub bind-ok :
    {A B : Type 0} (m : Http A) (f : A → Http B) (w : World) {b : B} {w' : World}
    → (m >>= f) w ≡ (ok b, w')
    → (a : A) × (v : World) × (m w ≡ (ok a, v)) × (f a v ≡ (ok b, w'))
bind-ok {A} {B} m f w {b} {w'} h = go (m w) refl h
  where
    go :
        (r : Result ApiError A × World)
        → m w ≡ r
        → continue r.0 f r.1 ≡ (ok b, w')
        → (a : A) × (v : World) × (m w ≡ (ok a, v)) × (f a v ≡ (ok b, w'))
    go (ok a, v) e k = (a, v, e, k)
    go (err e', v) e k = cc

-- The same where the first step is a check, which leaves the world as it is.
pub lift-ok :
    {A B : Type 0} (r : Result ApiError A) (f : A → Http B) (w : World) {b : B} {w' : World}
    → (lift r >>= f) w ≡ (ok b, w')
    → (a : A) × (r ≡ ok a) × (f a w ≡ (ok b, w'))
lift-ok (ok a) f w h = (a, refl, h)
lift-ok (err e) f w h = cc
