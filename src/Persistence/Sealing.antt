-- ===== src/Persistence/Sealing.antt =====
-- Sealing the secrets of connectors that were stored in the clear (crates/openpay-persistence/src/store.rs,
-- encrypt_connector_secret_refs). The nonces of the cipher are a parameter.
pub mod Cleared
use vega_trix.Base.{
  ℕ, suc, Bool, true, false, not, ◌&&◌, List, [], ◌∷◌, map, Result, ok, err, map_err, ◌==◌,
  if◌then◌else◌,
}
use vega_trix.Base.Machine.{Uuid}
use vega_trix.Base.Text.{codes}
use vega_trix.Crypto.Envelope.{
  Cipher, starts_with, is_secret_ref, is_encrypted_envelope, seal_if_plaintext,
}
use vega_trix.Application.Ports.{ApplicationError, repository, infra}
use vega_trix.Application.Exec.{World, Exec, pure, lift, query, now, ◌>>=◌, ◌>>◌}
use vega_trix.Persistence.Db.{ConnectorRow, Query}

-- `SELECT id, configuration_ref FROM connectors`
unfoldable pub references : Query (List (Uuid × List ℕ))
references db = (ok (map (λ row. (row.id, row.configuration_ref)) db.connectors), db)

-- `UPDATE connectors SET configuration_ref = $1 WHERE id = $3`
unfoldable pub set_reference : Uuid → List ℕ → Query (Unit {0})
set_reference id sealed db = (
  ok tt,
  record db {
    connectors =
        map (λ row. if row.id == id then record row { configuration_ref = sealed } else row)
          db.connectors;
  },
)

-- The next random nonce, by its number.
abbrev pub next_nonce : Exec ℕ
next_nonce w = (ok w.rolled, record w { rolled = suc w.rolled })

-- The references that the loop skips.
unfoldable pub is_skipped : List ℕ → Bool
is_skipped refer =
    if is_encrypted_envelope refer
    then true
    else not (is_secret_ref refer) && not (starts_with refer (codes "env:"))

module _ (lib : Cipher) (nonces : ℕ → List ℕ) (key : List ℕ) where
  -- The rest of a round of the loop, once the reference is sealed.
  unfoldable pub store_sealed : Uuid → List ℕ → Exec (Unit {0})
  store_sealed id sealed = do now; query (set_reference id sealed)

  -- One round of the loop on a reference that is not skipped.
  unfoldable pub seal_row : Uuid → List ℕ → Exec (Unit {0})
  seal_row id refer = do
    k ← next_nonce
    sealed ←
        lift (map_err (λ e. repository (infra "seal")) (seal_if_plaintext lib (nonces k) key refer))
    store_sealed id sealed

  -- The loop, with the count of the rows that were sealed.
  unfoldable pub seal_rows : List (Uuid × List ℕ) → ℕ → Exec ℕ
  seal_rows [] n = pure n
  seal_rows ((id, refer) ∷ rows) n =
      let skip : Exec ℕ = seal_rows rows n in
      let go : Exec ℕ = (do seal_row id refer; seal_rows rows (suc n)) in
      if is_skipped refer then skip else go

  -- `encrypt_connector_secret_refs`
  unfoldable pub encrypt_connector_secret_refs : Exec ℕ
  encrypt_connector_secret_refs = do rows ← query references; seal_rows rows 0
