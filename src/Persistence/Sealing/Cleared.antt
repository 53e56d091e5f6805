-- ===== src/Persistence/Sealing/Cleared.antt =====
-- No secret stays in the clear (crates/openpay-persistence/src/store.rs).
use vega_trix.Base.{
  ℕ, suc, ◌≡◌, ◌≢◌, Each, all-Each, refl, ap, Bool, true, not, ◌&&◌, ◌||◌, List, [], ◌∷◌, ◌++◌,
  some, map, all, any, ok, ◌==◌, arith, Bool-cases, Result-cases, inl, inr, if◌then◌else◌,
  ok-injective, bind-ok as chain-ok, fail_if, ok_or,
}
use mathlib.Core.Path.{subst}
use vega_trix.Base.Machine.{Uuid}
use vega_trix.Base.Text.{codes}
use vega_trix.Crypto.Envelope.{
  Cipher, envelope_prefix, is_encrypted_envelope, starts_with, is_secret_ref, seal_if_plaintext,
  encrypt_secret,
}
use vega_trix.Crypto.Library.{invalid_master_key, encryption}
use vega_trix.Domain.Ids.{strip_prefix}
use vega_trix.Application.Exec.{World, bind-ok}
use vega_trix.Persistence.Db.{ConnectorRow}
use vega_trix.Persistence.Sealing.{
  references, set_reference, is_skipped, store_sealed, seal_row, seal_rows,
  encrypt_connector_secret_refs,
}

-- A row is sealed, or waits in the list of the loop.
abbrev is_settled : List (Uuid × List ℕ) → ConnectorRow → Bool
is_settled waiting row =
    is_skipped row.configuration_ref || any (λ s. s.0 == row.id && not (is_skipped s.1)) waiting

-- A reference that shows no secret and no variable.
abbrev pub IsSealed : List ℕ → Type 0
IsSealed refer =
    ((rest : List ℕ) → refer ≢ codes "secret://" ++ rest)
    × ((rest : List ℕ) → refer ≢ codes "env:" ++ rest)

module _ (lib : Cipher) (nonces : ℕ → List ℕ) (key : List ℕ) where
  encrypt_secret-skipped :
      (nonce value sealed : List ℕ)
      → encrypt_secret lib nonce key value ≡ ok sealed
      → is_skipped sealed ≡ true
  unfolding encrypt_secret is_skipped is_encrypted_envelope starts_with strip_prefix
  encrypt_secret-skipped nonce value sealed h =
      let (_, _, h1) = chain-ok (fail_if (not (lib.accepts key)) invalid_master_key) _ h in
      let (body, _, h2) = chain-ok (ok_or (lib.seal key nonce value) encryption) _ h1 in
      subst (λ s. is_skipped s ≡ true) (ok-injective h2) refl

  seal_if_plaintext-skipped :
      (nonce value sealed : List ℕ)
      → seal_if_plaintext lib nonce key value ≡ ok sealed
      → is_skipped sealed ≡ true
  unfolding seal_if_plaintext is_skipped
  seal_if_plaintext-skipped nonce value sealed h = elim (Bool-cases (is_encrypted_envelope value)) [
    | inl e ↦ subst (λ s. is_skipped s ≡ true) (ok-injective (rw e at h)) (rw e refl)
    | inr e ↦ encrypt_secret-skipped nonce value sealed (rw e at h)
  ]

  -- An update settles every row with its identifier.
  set_reference-settled :
      (id : Uuid) (sealed refer : List ℕ) (waiting : List (Uuid × List ℕ))
      (rows : List ConnectorRow)
      → is_skipped sealed ≡ true
      → all (is_settled ((id, refer) ∷ waiting)) rows ≡ true
      → all (is_settled waiting) (
          map (λ row. if row.id == id then record row { configuration_ref = sealed } else row) rows)
        ≡ true
  set_reference-settled id sealed refer waiting [] skipped h = refl
  set_reference-settled id sealed refer waiting (row ∷ rows) skipped h =
      ground (arith, set_reference-settled id sealed refer waiting rows skipped)

  -- A reference that is skipped settles nothing.
  skip-settled :
      (id : Uuid) (refer : List ℕ) (waiting : List (Uuid × List ℕ)) (rows : List ConnectorRow)
      → is_skipped refer ≡ true
      → all (is_settled ((id, refer) ∷ waiting)) rows ≡ true
      → all (is_settled waiting) rows ≡ true
  skip-settled id refer waiting [] skipped h = refl
  skip-settled id refer waiting (row ∷ rows) skipped h =
      ground (arith, skip-settled id refer waiting rows skipped)

  seal_row-settled :
      (id : Uuid) (refer : List ℕ) (waiting : List (Uuid × List ℕ)) (w w' : World)
      → seal_row lib nonces key id refer w ≡ (ok tt, w')
      → all (is_settled ((id, refer) ∷ waiting)) w.db.connectors ≡ true
      → all (is_settled waiting) w'.db.connectors ≡ true
  unfolding seal_row store_sealed set_reference
  seal_row-settled id refer waiting w w' h before =
      elim (Result-cases (seal_if_plaintext lib (nonces w.rolled) key refer)) [
        | inr (_, e) ↦ absurd (cc (rw e at h))
        | inl (sealed, e) ↦
            subst (λ v. all (is_settled waiting) v.db.connectors ≡ true) (ap (λ r. r.1) (rw e at h))
              (set_reference-settled id sealed refer waiting w.db.connectors
                (seal_if_plaintext-skipped (nonces w.rolled) refer sealed e) before)
      ]

  seal_rows-settled :
      (waiting : List (Uuid × List ℕ)) (n m : ℕ) (w w' : World)
      → seal_rows lib nonces key waiting n w ≡ (ok m, w')
      → all (is_settled waiting) w.db.connectors ≡ true
      → all (is_settled []) w'.db.connectors ≡ true
  unfolding seal_rows
  seal_rows-settled [] n m w w' h before =
      subst (λ v. all (is_settled []) v.db.connectors ≡ true) (ap (λ r. r.1) h) before
  seal_rows-settled ((id, refer) ∷ waiting) n m w w' h before =
      elim (Bool-cases (is_skipped refer)) [
        | inl e ↦
            seal_rows-settled waiting n m w w' (rw e at h)
              (skip-settled id refer waiting w.db.connectors e before)
        | inr e ↦
            let (_, v, done, h') = bind-ok (seal_row lib nonces key id refer) _ w (rw e at h) in
            seal_rows-settled waiting (suc n) m v w' h'
              (seal_row-settled id refer waiting w v done before)
      ]

  -- A longer list settles as much.
  weaken-settled :
      (id : Uuid) (refer : List ℕ) (waiting : List (Uuid × List ℕ)) (rows : List ConnectorRow)
      → all (is_settled waiting) rows ≡ true
      → all (is_settled ((id, refer) ∷ waiting)) rows ≡ true
  weaken-settled id refer waiting [] h = refl
  weaken-settled id refer waiting (row ∷ rows) h =
      ground (arith, weaken-settled id refer waiting rows)

  -- Every row waits in the list of all rows.
  own-settled :
      (rows : List ConnectorRow)
      → all (is_settled (map (λ row. (row.id, row.configuration_ref)) rows)) rows ≡ true
  own-settled [] = refl
  own-settled (row ∷ rows) = ground (
    arith,
    weaken-settled row.id row.configuration_ref (map (λ row. (row.id, row.configuration_ref)) rows)
        rows (own-settled rows),
  )

  seal_rows_idle :
      (rows : List ConnectorRow) (n : ℕ) (w : World)
      → all (is_settled []) rows ≡ true
      → seal_rows lib nonces key (map (λ row. (row.id, row.configuration_ref)) rows) n w ≡ (ok n, w)
  unfolding seal_rows
  seal_rows_idle [] n w h = refl
  seal_rows_idle (row ∷ rows) n w h = ground (arith, seal_rows_idle rows n w)

  skipped-IsSealed : (refer : List ℕ) → is_skipped refer ≡ true → IsSealed refer
  unfolding is_skipped is_encrypted_envelope is_secret_ref starts_with strip_prefix
  skipped-IsSealed refer h = (λ rest e. absurd (cc (rw e at h)), λ rest e. absurd (cc (rw e at h)))

  settled-all :
      (rows : List ConnectorRow)
      → all (is_settled []) rows ≡ true
      → all (λ row. is_skipped row.configuration_ref) rows ≡ true
  settled-all [] h = refl
  settled-all (row ∷ rows) h = ground (arith, settled-all rows)

  settled-IsSealed :
      (rows : List ConnectorRow)
      → all (is_settled []) rows ≡ true
      → Each (λ row. IsSealed row.configuration_ref) rows
  settled-IsSealed rows h =
      all-Each (λ row. is_skipped row.configuration_ref) (λ row. IsSealed row.configuration_ref)
        (λ row. skipped-IsSealed row.configuration_ref) rows (settled-all rows h)

  -- The cipher takes the key and seals every text.
  abbrev pub SealsAll : Type 0
  SealsAll =
      (lib.accepts key ≡ true)
      × ((k : ℕ) (text : List ℕ) → (sealed : List ℕ) × (lib.seal key (nonces k) text ≡ some sealed))

  seal_if_plaintext-some :
      (k : ℕ) (value : List ℕ)
      → SealsAll
      → (sealed : List ℕ) × (seal_if_plaintext lib (nonces k) key value ≡ ok sealed)
  unfolding seal_if_plaintext encrypt_secret
  seal_if_plaintext-some k value (accepted, seals) =
      elim (Bool-cases (is_encrypted_envelope value)) [
        | inl e ↦ (value, rw e refl)
        | inr e ↦
            let (sealed, s) = seals k value in
            (envelope_prefix ++ lib.base64_encode (nonces k ++ sealed), rw (e, accepted, s) refl)
      ]

  seal_row-some :
      (id : Uuid) (refer : List ℕ) (w : World)
      → SealsAll
      → (w' : World) × (seal_row lib nonces key id refer w ≡ (ok tt, w'))
  unfolding seal_row store_sealed set_reference
  seal_row-some id refer w all_seals =
      let (sealed, e) = seal_if_plaintext-some w.rolled refer all_seals in
      ((seal_row lib nonces key id refer w).1, rw e refl)

  seal_rows-some :
      (rows : List (Uuid × List ℕ)) (n : ℕ) (w : World)
      → SealsAll
      → (m : ℕ) × (w' : World) × (seal_rows lib nonces key rows n w ≡ (ok m, w'))
  unfolding seal_rows
  seal_rows-some [] n w all_seals = (n, w, refl)
  seal_rows-some ((id, refer) ∷ rows) n w all_seals = elim (Bool-cases (is_skipped refer)) [
    | inl e ↦ let (m, w', run) = seal_rows-some rows n w all_seals in (m, w', rw e run)
    | inr e ↦
        let (v, first) = seal_row-some id refer w all_seals in
        let (m, w', run) = seal_rows-some rows (suc n) v all_seals in (m, w', rw (e, first) run)
  ]

  -- The run succeeds if the cipher takes the key and seals every text. After it no connector's reference in
  -- the table begins with secret:// or env:, so none is a plain secret or the plain name of a variable;
  -- and a second run finds nothing to do: it counts 0 and changes nothing.
  pub encrypt_connector_secret_refs-IsSealed :
      (w : World)
      → SealsAll
      → (n : ℕ) × (w' : World) × (encrypt_connector_secret_refs lib nonces key w ≡ (ok n, w'))
        × Each (λ (row : ConnectorRow). IsSealed row.configuration_ref) w'.db.connectors
        × (encrypt_connector_secret_refs lib nonces key w' ≡ (ok 0, w'))
  unfolding encrypt_connector_secret_refs references
  encrypt_connector_secret_refs-IsSealed w all_seals =
      let rows = map (λ row. (row.id, row.configuration_ref)) w.db.connectors in
      let (n, w', run) = seal_rows-some rows 0 w all_seals in
      let settled = seal_rows-settled rows 0 n w w' run (own-settled w.db.connectors) in
      (
        n,
        w',
        run,
        settled-IsSealed w'.db.connectors settled,
        seal_rows_idle w'.db.connectors 0 w' settled,
      )
