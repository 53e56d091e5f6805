-- ===== src/Persistence/Nonces.antt =====
-- The nonces of consumed QR tokens (crates/openpay-persistence/src/store.rs).
use vega_trix.Base.{ℕ, Bool, true, false, List, [], ◌∷◌, ◌++◌, ok, any, if◌then◌else◌}
use vega_trix.Base.Machine.{Instant}
use vega_trix.Base.Text.{text_eq}
use vega_trix.Persistence.Db.{Query, NonceRow}

-- The nonce is the primary key of its table.
abbrev pub is_used : List ℕ → List NonceRow → Bool
is_used nonce rows = any (λ row. text_eq row.nonce nonce) rows

-- `remember_nonce`: whether a row was inserted
unfoldable pub remember_nonce : List ℕ → Instant → Instant → Query Bool
remember_nonce nonce now expires db = if is_used nonce db.nonces then (ok false, db) else (
  ok true,
  record db {
    nonces = db.nonces ++ record { nonce = nonce; consumed_at = now; expires_at = expires } ∷ [];
  },
)
