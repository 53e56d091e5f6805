-- ===== src/Base/Lists.antt =====
-- Lists measured by native numbers, and the searches that the program's iterators make.
use Prim.Native.Nat.{ℕ, zero, suc, ◌+◌, ◌≤◌}
use mathlib.Core.Path.{◌≡◌, refl, subst}
use mathlib.Core.Bool.{Bool, true, false, ◌||◌, ◌&&◌}
use mathlib.Core.Option
use mathlib.Core.Option.{Option, none, some}
use mathlib.Core.List.{List, [], ◌∷◌, ◌++◌, map}
use native.Mathlib.Omega.{arith}
use mathlib.Core.Logic.{◌⊎◌, inl, inr}
use vega_trix.Base.Tests.{if◌then◌else◌, Bool-cases}

some-injective {ℓ} : {A : Type ℓ} {a b : A} → some a ≡ some b → a ≡ b
some-injective h = cc h

module _ {ℓ} {A : Type ℓ} where
  abbrev pub length : List A → ℕ
  length [] = 0
  length (x ∷ xs) = suc (length xs)

  abbrev pub take : ℕ → List A → List A
  take zero xs = []
  take (suc n) [] = []
  take (suc n) (x ∷ xs) = x ∷ take n xs

  abbrev pub drop : ℕ → List A → List A
  drop zero xs = xs
  drop (suc n) [] = []
  drop (suc n) (x ∷ xs) = drop n xs

  -- `Iterator::any`
  abbrev pub any : (A → Bool) → List A → Bool
  any p [] = false
  any p (x ∷ xs) = p x || any p xs

  -- `Iterator::all`
  abbrev pub all : (A → Bool) → List A → Bool
  all p [] = true
  all p (x ∷ xs) = p x && all p xs

  -- `Iterator::find`, and the first row of a query
  abbrev pub find : (A → Bool) → List A → Option A
  find p [] = none
  find p (x ∷ xs) = let rest = find p xs in if p x then some x else rest

  -- `Iterator::filter` with a Boolean test, and the rows of a query
  abbrev pub select : (A → Bool) → List A → List A
  select p [] = []
  select p (x ∷ xs) = let rest = select p xs in if p x then x ∷ rest else rest

  -- The number of rows that a statement touches.
  abbrev pub count : (A → Bool) → List A → ℕ
  count p [] = 0
  count p (x ∷ xs) = let rest = count p xs in if p x then suc rest else rest

  -- `slice::first`, and the row of a query with `LIMIT 1`
  abbrev pub first_of : List A → Option A
  first_of [] = none
  first_of (x ∷ xs) = some x

  abbrev pub is_empty : List A → Bool
  is_empty [] = true
  is_empty (x ∷ xs) = false

  pub length-append : (xs ys : List A) → length (xs ++ ys) ≡ length xs + length ys
  length-append [] ys = omega arith
  length-append (x ∷ xs) ys = omega (arith, length-append xs ys)

  length-take : (n : ℕ) (xs : List A) → length (take n xs) ≤ n
  length-take zero xs = omega arith
  length-take (suc n) [] = omega arith
  length-take (suc n) (x ∷ xs) = omega (arith, length-take n xs)

  pub take-append : (xs ys : List A) → take (length xs) (xs ++ ys) ≡ xs
  take-append [] ys = refl
  take-append (x ∷ xs) ys = cc (take-append xs ys)

  pub drop-append : (xs ys : List A) → drop (length xs) (xs ++ ys) ≡ ys
  drop-append [] ys = refl
  drop-append (x ∷ xs) ys = drop-append xs ys

  pub count-append_one :
      (p : A → Bool) (xs : List A) (x : A)
      → count p (xs ++ x ∷ []) ≡ count p xs + (if p x then 1 else 0)
  count-append_one p [] x = ground arith
  count-append_one p (y ∷ ys) x = ground (arith, count-append_one p ys x)

  -- A row that no row before it matches is found at the end.
  pub find-append_one :
      (p : A → Bool) (xs : List A) (x : A)
      → any p xs ≡ false
      → p x ≡ true
      → find p (xs ++ x ∷ []) ≡ some x
  find-append_one p [] x none_before here = rw here refl
  find-append_one p (y ∷ ys) x none_before here =
      ground (arith, none_before, find-append_one p ys x)

  -- An update that the search does not see is found as the updated row.
  pub find-map :
      (p : A → Bool) (f : A → A) (xs : List A)
      → ((x : A) → p (f x) ≡ p x)
      → find p (map f xs) ≡ Option.map f (find p xs)
  find-map p f [] same = refl
  find-map p f (x ∷ xs) same =
      rw (same x)
        (elim (Bool-cases (p x)) [ inl e ↦ rw e refl | inr e ↦ rw e (find-map p f xs same) ])

  -- What is found passes the test.
  pub find-some : (p : A → Bool) (xs : List A) {x : A} → find p xs ≡ some x → p x ≡ true
  find-some p [] h = absurd (cc h)
  find-some p (y ∷ ys) h = elim (Bool-cases (p y)) [
    | inl e ↦ subst (λ z. p z ≡ true) (some-injective (rw e at h)) e
    | inr e ↦ find-some p ys (rw e at h)
  ]

pub any-at :
    {A : Type 0} (p : A → Bool) (x : A) (xs ys : List A) → p x ≡ true → any p (xs ++ x ∷ ys) ≡ true
any-at p x [] ys h = ground arith
any-at p x (y ∷ xs) ys h = ground (arith, any-at p x xs ys h)

pub any-more :
    {A : Type 0} (p : A → Bool) (xs ys : List A) → any p xs ≡ true → any p (xs ++ ys) ≡ true
any-more p [] ys h = cc
any-more p (x ∷ xs) ys h = ground (arith, any-more p xs ys)

-- The first hit stays the first one when elements follow.
pub find-more :
    {A : Type 0} (p : A → Bool) (xs ys : List A) {x : A}
    → find p xs ≡ some x
    → find p (xs ++ ys) ≡ some x
find-more p [] ys h = cc
find-more p (y ∷ xs) ys {x} h = ground (arith, find-more p xs ys {x = x})

-- Every element, and some element.
abbrev pub Each : {A : Type 0} → (A → Type 0) → List A → Type 0
Each P [] = Unit
Each P (x ∷ xs) = P x × Each P xs

abbrev pub HasOne : {A : Type 0} → (A → Type 0) → List A → Type 0
HasOne P [] = ⊥
HasOne P (x ∷ xs) = P x ⊎ HasOne P xs

pub any-HasOne :
    {A : Type 0} (p : A → Bool) (P : A → Type 0)
    → ((x : A) → p x ≡ true → P x)
    → (xs : List A) → any p xs ≡ true
    → HasOne P xs
any-HasOne p P f [] h = cc
any-HasOne p P f (x ∷ xs) h = elim (Bool-cases (p x)) [
  | inl e ↦ inl (f x e)
  | inr e ↦ inr (any-HasOne p P f xs (ground (arith, e)))
]

pub all-Each :
    {A : Type 0} (p : A → Bool) (P : A → Type 0)
    → ((x : A) → p x ≡ true → P x)
    → (xs : List A) → all p xs ≡ true
    → Each P xs
all-Each p P f [] h = tt
all-Each p P f (x ∷ xs) h = (f x (ground arith), all-Each p P f xs (ground arith))
