-- ===== src/Api/Admin/Connectors/Sealed.antt =====
-- The reference of a connector from the form to the table and back (crates/openpay-api/src/admin.rs).
use vega_trix.Base.{
  ℕ, ◌≡◌, refl, sym, ap, ◌∙◌, String, Bool, false, Option, some, List, [], ◌∷◌, ◌++◌, ok, err, ◌⊎◌,
  inl, inr, arith, Result-cases, ok-injective, Option-cases, is_empty, suc, map, find, ◌&&◌,
  Bool-cases,
}
use vega_trix.Base.Text.{codes, trim, utf8, to_lower}
use vega_trix.Domain.Ids.{strip_prefix}
use vega_trix.Crypto.Envelope.{
  decode_master_key, starts_with, is_secret_ref, is_encrypted_envelope, open_secret_value,
}
use vega_trix.Crypto.Envelope.RoundTrip.{Seals, envelope_of, open_secret_value-seal_if_plaintext}
use vega_trix.Config.{contains}
use vega_trix.Config.Parts.{Has, contains-none}
use vega_trix.Application.Exec.{World}
use vega_trix.Persistence.Db.{ConnectorRow}
use vega_trix.Persistence.Admin.{update_connector_admin, is_reached}
use vega_trix.Persistence.Admin.Updates.{update_connector_admin-ok}
use vega_trix.Api.Error.{ApiError}
use vega_trix.Api.Http.{lift-ok}
use vega_trix.Api.Auth.{AuthContext, require_admin}
use vega_trix.Api.Admin.{AdminEnv, seal_connector_ref}
use vega_trix.Api.Admin.Connectors.{
  looks_like_live_psp, is_env_ref, validate_connector_ref, parse_connector_status, shown_plain,
  redact_configuration_ref, sealed_ref, store_connector, update_connector,
}

strip_prefix-some : (p s r : List ℕ) → strip_prefix p s ≡ some r → s ≡ p ++ r
unfolding strip_prefix
strip_prefix-some [] s r h = ground arith
strip_prefix-some (c ∷ p) [] r h = cc
strip_prefix-some (c ∷ p) (d ∷ s) r h = ground (arith, strip_prefix-some p s r)

-- A text that may stand for a secret.
abbrev IsReference : List ℕ → Type 0
IsReference text =
    ((rest : List ℕ) × (text ≡ codes "secret://" ++ rest))
    ⊎ ((rest : List ℕ) × (text ≡ codes "env:" ++ rest))

-- A text, its letters lowered, without the marks of a live provider's keys.
abbrev pub IsNoCredential : List ℕ → Type 0
IsNoCredential text =
    let lowered : List ℕ = map to_lower text in
    (¬ Has (codes "sk_live") lowered)
    × (¬ Has (codes "rk_live") lowered)
    × (¬ Has (codes "sk_test") lowered)
    × (¬ (Has (codes "stripe") lowered × Has (codes "sk_") lowered))
    × (¬ (Has (codes "stripe") lowered × Has (codes "rk_") lowered))

not_both :
    (c d : ℕ) (part other text : List ℕ)
    → contains text (c ∷ part) && contains text (d ∷ other) ≡ false
    → ¬ (Has (c ∷ part) text × Has (d ∷ other) text)
not_both c d part other text h (one, two) = elim (Bool-cases (contains text (c ∷ part))) [
  | inl e ↦ contains-none d other text (ground arith) two
  | inr e ↦ contains-none c part text e one
]

looks_like_live_psp-IsNoCredential :
    (text : List ℕ) → looks_like_live_psp text ≡ false → IsNoCredential text
unfolding looks_like_live_psp
looks_like_live_psp-IsNoCredential text h = (
  contains-none b's' (codes "k_live") _ (ground arith),
  contains-none b'r' (codes "k_live") _ (ground arith),
  contains-none b's' (codes "k_test") _ (ground arith),
  not_both b's' b's' (codes "tripe") (codes "k_") _ (ground arith),
  not_both b's' b'r' (codes "tripe") (codes "k_") _ (ground arith),
)

validate_connector_ref-ok :
    (text : List ℕ)
    → validate_connector_ref text ≡ ok tt
    → (looks_like_live_psp text ≡ false) × IsReference text
unfolding validate_connector_ref is_secret_ref starts_with is_env_ref
validate_connector_ref-ok text h = (
  ground arith,
  elim (Option-cases (strip_prefix (codes "secret://") text)) [
    | inr (rest, e) ↦ inl (rest, strip_prefix-some (codes "secret://") text rest e)
    | inl none_there ↦ elim (Option-cases (strip_prefix (codes "env:") text)) [
      | inr (rest, e) ↦ inr (rest, strip_prefix-some (codes "env:") text rest e)
      | inl neither ↦ absurd (ground arith)
    ]
  ],
)

-- The bytes of a reference are no envelope, and are shown.
reference-shown :
    (text : List ℕ)
    → IsReference text
    → (is_encrypted_envelope (utf8 text) ≡ false)
      × (shown_plain (utf8 text) ≡ ("encrypted_ref", utf8 text))
unfolding is_encrypted_envelope starts_with strip_prefix shown_plain utf8
reference-shown text (inl (rest, e)) = rw e (refl, refl)
reference-shown text (inr (rest, e)) = rw e (refl, refl)

module _ (env : AdminEnv) (key : List ℕ)
    (decoded : decode_master_key env.cipher env.encryption_master_key ≡ ok key) where
  -- The answer of `update_connector` for a row whose reference is sealed.
  redact-envelope :
      (nonce text : List ℕ) (c : Seals env.cipher key nonce (utf8 text))
      → IsReference text
      → redact_configuration_ref env (envelope_of env.cipher key nonce (utf8 text) c)
        ≡ ("encrypted_ref", utf8 text)
  unfolding redact_configuration_ref is_encrypted_envelope starts_with strip_prefix
  redact-envelope nonce text c h =
      let (plain, shown) = reference-shown text h in
      rw (decoded, (open_secret_value-seal_if_plaintext env.cipher key nonce (utf8 text) c plain).1)
        shown

  sealed_ref-some :
      (raw : List ℕ) (w : World)
      (c : Seals env.cipher key (env.aead_nonce w.rolled) (utf8 (trim raw)))
      → is_empty (trim raw) ≡ false
      → validate_connector_ref (trim raw) ≡ ok tt
      → sealed_ref env (some raw) w ≡ (
        ok (some (envelope_of env.cipher key _ (utf8 (trim raw)) c)),
        record w { rolled = suc w.rolled },
      )
  unfolding sealed_ref seal_connector_ref
  sealed_ref-some raw w c given valid =
      let (plain, _) = reference-shown (trim raw) (validate_connector_ref-ok (trim raw) valid).1 in
      rw
        (
          given,
          valid,
          decoded,
          (open_secret_value-seal_if_plaintext env.cipher key _ (utf8 (trim raw)) c plain).0,
        )
        refl

  sealed_ref-refused :
      (raw : List ℕ) (e : ApiError) (w : World)
      → is_empty (trim raw) ≡ false
      → validate_connector_ref (trim raw) ≡ err e
      → sealed_ref env (some raw) w ≡ (err e, w)
  unfolding sealed_ref
  sealed_ref-refused raw e w given q = rw (given, q) refl

  -- The end of `update_connector`, once the reference is sealed.
  stored-shown :
      (auth : AuthContext) (name : String) (enabled : Option Bool) (text nonce : List ℕ)
      (c : Seals env.cipher key nonce (utf8 text)) (v w' : World) (row : ConnectorRow)
      (shown : String × List ℕ)
      → IsReference text
      → store_connector env auth name enabled
          (some (envelope_of env.cipher key nonce (utf8 text) c))
          v
        ≡ (ok (row, shown), w')
      → (shown ≡ ("encrypted_ref", utf8 text))
        × (find (is_reached auth.tenant_id name) w'.db.connectors ≡ some row)
        × (open_secret_value env.cipher key row.configuration_ref ≡ ok (utf8 text))
  unfolding store_connector
  stored-shown auth name enabled text nonce c v w' row shown is h =
      let refer : List ℕ = envelope_of env.cipher key nonce (utf8 text) c in
      let run = update_connector_admin auth.tenant_id name enabled (some refer) v.db in
      elim (Result-cases run.0) [
        | inr (_, q) ↦ absurd (cc (rw q at h))
        | inl (r0, q) ↦
            let pair : run ≡ (ok r0, run.1) = λ i. (q i, run.1) in
            let (there, (old, made)) =
              update_connector_admin-ok auth.tenant_id name enabled (some refer) v.db run.1 r0
                pair in
            let ended = rw q at h in
            let answer = ok-injective (ap (λ r. r.0) ended) in
            let kept : run.1 ≡ w'.db = ap (λ r. r.1.db) ended in
            let stored : row.configuration_ref ≡ refer =
              ap (λ r. r.0.configuration_ref) (sym answer) ∙ ap (λ r. r.configuration_ref) made in
            (
              ap (λ r. r.1) (sym answer)
                  ∙ ap (λ r. redact_configuration_ref env r.configuration_ref) made
                  ∙ redact-envelope nonce text c is,
              rw (← kept) there ∙ ap (λ r. some r.0) answer,
              ap (open_secret_value env.cipher key) stored
                  ∙ (open_secret_value-seal_if_plaintext env.cipher key nonce (utf8 text) c
                      (reference-shown text is).0).1,
            )
      ]

  -- A reference that an administrator sets for a connector has none of the marks of a live provider's
  -- keys; the table then holds the answered row, whose reference opens to the bytes of the trimmed text,
  -- and the answer shows just those. The cipher and Base64 must open what they sealed.
  pub update_connector-shown :
      (auth : AuthContext) (name : String) (status : Option String) (raw : List ℕ) (w w' : World)
      (row : ConnectorRow) (shown : String × List ℕ)
      → Seals env.cipher key (env.aead_nonce w.rolled) (utf8 (trim raw))
      → is_empty (trim raw) ≡ false
      → update_connector env auth name (record { status = status; configuration_ref = some raw }) w
        ≡ (ok (row, shown), w')
      → IsNoCredential (trim raw)
        × (shown ≡ ("encrypted_ref", utf8 (trim raw)))
        × (find (is_reached auth.tenant_id name) w'.db.connectors ≡ some row)
        × (open_secret_value env.cipher key row.configuration_ref ≡ ok (utf8 (trim raw)))
  unfolding update_connector
  update_connector-shown auth name status raw w w' row shown c given h =
      let (_, _, h1) = lift-ok (require_admin auth) _ w h in
      let (enabled, _, h2) = lift-ok (parse_connector_status status) _ w h1 in
      elim (Result-cases (validate_connector_ref (trim raw))) [
        | inr (e, q) ↦ absurd (cc (rw (sealed_ref-refused raw e w given q) at h2))
        | inl (_, q) ↦
            let (quiet, is) = validate_connector_ref-ok (trim raw) q in
            let (display, there, opens) =
              stored-shown auth name enabled (trim raw) _ c (record w { rolled = suc w.rolled }) w'
                row shown is (rw (sealed_ref-some raw w c given q) at h2) in
            (looks_like_live_psp-IsNoCredential (trim raw) quiet, display, there, opens)
      ]
