-- ===== src/Base/Sort.antt =====
-- The stable sort behind `sort_by_key` and `ORDER BY`, by insertion.
use mathlib.Core.Path.{◌≡◌, refl}
use mathlib.Core.Bool.{Bool, true, false, ◌||◌}
use mathlib.Core.List.{List, [], ◌∷◌}
use native.Mathlib.Omega.{arith}
use vega_trix.Base.Tests.{if◌then◌else◌}
use vega_trix.Base.Lists.{any}

module _ {A : Type 0} (before : A → A → Bool) where
  -- `x` goes in front of the first element that it does not come after.
  unfoldable pub insert_by : A → List A → List A
  insert_by x [] = x ∷ []
  insert_by x (y ∷ ys) = let rest = insert_by x ys in if before x y then x ∷ y ∷ ys else y ∷ rest

  unfoldable pub sort_by : List A → List A
  unfolding insert_by
  sort_by [] = []
  sort_by (x ∷ xs) = insert_by x (sort_by xs)

  any-insert_by : (p : A → Bool) (x : A) (xs : List A) → any p (insert_by x xs) ≡ (p x || any p xs)
  unfolding insert_by
  any-insert_by p x [] = refl
  any-insert_by p x (y ∷ ys) = ground (arith, any-insert_by p x ys)

  pub any-sort_by : (p : A → Bool) (xs : List A) → any p (sort_by xs) ≡ any p xs
  unfolding sort_by
  any-sort_by p [] = refl
  any-sort_by p (x ∷ xs) = ground (arith, any-insert_by p x (sort_by xs), any-sort_by p xs)

  -- Every element comes before, or may stand before, the one after it.
  abbrev pub IsSortedBy : List A → Type 0
  IsSortedBy [] = Unit
  IsSortedBy (x ∷ []) = Unit
  IsSortedBy (x ∷ y ∷ ys) = (before x y ≡ true) × IsSortedBy (y ∷ ys)

  module _ (total : (x y : A) → before x y ≡ false → before y x ≡ true) where
    insert_by-IsSortedBy : (x : A) (xs : List A) → IsSortedBy xs → IsSortedBy (insert_by x xs)
    unfolding insert_by
    insert_by-IsSortedBy x [] h = tt
    insert_by-IsSortedBy x (y ∷ []) h = ground (arith, total x y)
    insert_by-IsSortedBy x (y ∷ z ∷ zs) h =
        ground (arith, total x y, insert_by-IsSortedBy x (z ∷ zs) h.1)

    pub sort_by-IsSortedBy : (xs : List A) → IsSortedBy (sort_by xs)
    unfolding sort_by
    sort_by-IsSortedBy [] = tt
    sort_by-IsSortedBy (x ∷ xs) = insert_by-IsSortedBy x (sort_by xs) (sort_by-IsSortedBy xs)
