-- ===== src/Domain/Ids/RoundTrip.antt =====
-- Printed identifiers parse back, and only under their own prefix.
use vega_trix.Base.{ℕ, ◌≡◌, some, List, [], ◌∷◌, ◌++◌, ok, arith}
use vega_trix.Base.Machine.{Uuid}
use vega_trix.Domain.Ids.{UuidText, strip_prefix, as_prefixed, parse_prefixed}

strip_prefix-append : (p s : List ℕ) (c : ℕ) → strip_prefix (p ++ c ∷ []) (p ++ c ∷ s) ≡ some s
unfolding strip_prefix
strip_prefix-append [] s c = ground arith
strip_prefix-append (d ∷ p) s c = ground (arith, strip_prefix-append p s c)

-- An identifier printed with a prefix is parsed back under that prefix, given that the UUID itself is.
pub parse_prefixed-as_prefixed :
    (uuid : UuidText) (prefix : List ℕ) (id : Uuid)
    → uuid.parse_str (uuid.simple id) ≡ some id
    → parse_prefixed uuid prefix (as_prefixed uuid prefix id) ≡ ok id
unfolding parse_prefixed as_prefixed
parse_prefixed-as_prefixed uuid prefix id h =
    ground (arith, strip_prefix-append prefix (uuid.simple id) b'_')
