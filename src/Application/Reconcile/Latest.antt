-- ===== src/Application/Reconcile/Latest.antt =====
-- Which attempt the reconciler polls (crates/openpay-application/src/authorize.rs).
use mathlib.Core.List.{reverse_aux, reverse, reverse_aux-append}
use vega_trix.Base.{
  ◌≡◌, refl, ◌∙◌, ap, Bool, true, false, some, List, [], ◌∷◌, ◌++◌, arith, any, find,
}
use vega_trix.Domain.Payment.{PaymentAttempt}
use vega_trix.Application.Reconcile.{awaits, reconcilable_attempt}

module _ {A : Type 0} (p : A → Bool) where
  find-reverse_aux : (xs r : List A) → any p xs ≡ false → find p (reverse_aux xs r) ≡ find p r
  find-reverse_aux [] r h = refl
  find-reverse_aux (x ∷ xs) r h =
      find-reverse_aux xs (x ∷ r) (ground (arith, h)) ∙ ground (arith, h)

-- The attempt that is polled is the last one that is ambiguous or processing: when none of the later
-- attempts waits for its connector, the earlier ones do not matter.
reconcilable_attempt_latest :
    (before after : List PaymentAttempt) (a : PaymentAttempt)
    → awaits a ≡ true
    → any awaits after ≡ false
    → reconcilable_attempt (before ++ a ∷ after) ≡ some a
unfolding reconcilable_attempt
reconcilable_attempt_latest before after a waiting done =
    ap (find awaits) (reverse_aux-append before (a ∷ after) [])
    ∙ find-reverse_aux awaits after (a ∷ reverse before) done
    ∙ rw waiting refl
