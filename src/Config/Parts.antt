-- ===== src/Config/Parts.antt =====
-- What it means that a text has a part (`str::contains`).
use vega_trix.Base.{ℕ, ◌≡◌, refl, true, false, some, List, [], ◌∷◌, ◌++◌, arith}
use vega_trix.Domain.Ids.{strip_prefix}
use vega_trix.Crypto.Envelope.{starts_with}
use vega_trix.Config.{contains}

-- The part stands somewhere in the text.
abbrev pub Has : List ℕ → List ℕ → Type 0
Has part text = (before after : List ℕ) × (text ≡ before ++ part ++ after)

strip_prefix-append : (part after : List ℕ) → strip_prefix part (part ++ after) ≡ some after
unfolding strip_prefix
strip_prefix-append [] after = refl
strip_prefix-append (c ∷ part) after = ground (arith, strip_prefix-append part after)

starts_with-append : (part after : List ℕ) → starts_with (part ++ after) part ≡ true
unfolding starts_with
starts_with-append part after = rw (strip_prefix-append part after, starts_with) refl

contains-Has :
    (c : ℕ) (part before after : List ℕ)
    → contains (before ++ (c ∷ part) ++ after) (c ∷ part) ≡ true
unfolding contains
contains-Has c part [] after = ground (arith, starts_with-append (c ∷ part) after)
contains-Has c part (b ∷ before) after = ground (arith, contains-Has c part before after)

-- A text that does not contain a part does not have it.
pub contains-none :
    (c : ℕ) (part text : List ℕ) → contains text (c ∷ part) ≡ false → ¬ Has (c ∷ part) text
contains-none c part text h (before, after, e) = cc (contains-Has c part before after, rw e at h)
