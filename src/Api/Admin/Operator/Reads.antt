-- ===== src/Api/Admin/Operator/Reads.antt =====
-- The document that a patch leaves (crates/openpay-api/src/admin.rs), read key by key.
use vega_trix.Base.{
  ℕ, ◌≡◌, refl, ap, ◌∙◌, String, true, false, Option, none, some, List, arith, str_eq,
  if◌then◌else◌,
}
use vega_trix.Base.Int.{ℤ}
use vega_trix.Persistence.Settings.{Json, clamp, clamp_ℤ}
use vega_trix.Api.Admin.Operator.{
  Documents, OperatorPatch, FeaturePatch, put, with_features, patched_values,
}

-- What serde_json documents of its values: an object keeps what is inserted, and a value reads back as
-- what it was built from.
pub record DocumentLaws (json : Json) (docs : Documents json) : Type 0 where
  pub get-insert :
      (k j : String) (a v : json.Value)
      → docs.is_object v ≡ true
      → json.get (docs.insert k a v) j ≡ (if str_eq k j then some a else json.get v j)
  pub is_object-insert :
      (k : String) (a v : json.Value) → docs.is_object (docs.insert k a v) ≡ docs.is_object v
  pub as_str-of_text : (t : List ℕ) → json.as_str (docs.of_text t) ≡ some t
  pub as_i64-of_i64 : (n : ℤ) → json.as_i64 (docs.of_i64 n) ≡ some n
  pub as_u64-of_u64 : (n : ℕ) → json.as_u64 (docs.of_u64 n) ≡ some n
  pub strings-of_strings : (l : List (List ℕ)) → json.strings (docs.of_strings l) ≡ some l

module _ (json : Json) (docs : Documents json) (laws : DocumentLaws json docs) where
  is_object-put :
      {A : Type 0} (k : String) (of : A → json.Value) (o : Option A) (v : json.Value)
      → docs.is_object (put json docs k of o v) ≡ docs.is_object v
  is_object-put k of none v = refl
  is_object-put k of (some a) v = laws.is_object-insert k (of a) v

  -- What a `put` leaves under its own key.
  abbrev pub under :
      {A : Type 0} → (A → json.Value) → Option A → Option json.Value → Option json.Value
  under of none old = old
  under of (some a) old = some (of a)

  -- What it leaves under any key.
  abbrev over :
      {A : Type 0}
      → String
      → (A → json.Value)
      → Option A
      → String
      → Option json.Value
      → Option json.Value
  over k of o j old = if str_eq k j then under of o old else old

  get-put :
      {A : Type 0} (k j : String) (of : A → json.Value) (o : Option A) (v : json.Value)
      → docs.is_object v ≡ true
      → json.get (put json docs k of o v) j ≡ over k of o j (json.get v j)
  get-put k j of none v h = ground arith
  get-put k j of (some a) v h = laws.get-insert k j (of a) v h

  module _ (currency : Option (List ℕ)) (patch : OperatorPatch) (stored : json.Value)
      (object : docs.is_object stored ≡ true) where
    abbrev qr_value : ℤ → json.Value
    qr_value n = docs.of_i64 (clamp_ℤ 30 3600 n)

    abbrev timeout_value : ℕ → json.Value
    timeout_value n = docs.of_u64 (clamp 500 60000 n)

    abbrev limit_value : ℕ → json.Value
    limit_value n = docs.of_u64 (clamp 1 10000 n)

    -- A further key of an object that was read under `j`.
    next :
        {A : Type 0} (k j : String) (of : A → json.Value) (o : Option A) (v : json.Value)
        (before : Option json.Value)
        → (docs.is_object v ≡ true) × (json.get v j ≡ before)
        → (docs.is_object (put json docs k of o v) ≡ true)
          × (json.get (put json docs k of o v) j ≡ over k of o j before)
    next k j of o v before (is, read) =
        (is_object-put k of o v ∙ is, get-put k j of o v is ∙ ap (over k of o j) read)

    pub get-patched_values :
        (j : String)
        → (docs.is_object (patched_values json docs currency patch stored) ≡ true)
          × (json.get (patched_values json docs currency patch stored) j
              ≡ over "webhook_url_allowlist" docs.of_strings patch.webhook_url_allowlist j (
                  over "cors_allow_origins" docs.of_strings patch.cors_allow_origins j (
                    over "rate_limit_per_minute" limit_value patch.rate_limit_per_minute j (
                      over "webhook_timeout_ms" timeout_value patch.webhook_timeout_ms j (
                        over "qr_ttl_seconds" qr_value patch.qr_ttl_seconds j
                          (over "default_currency" docs.of_text currency j (json.get stored j)))))))
    unfolding patched_values
    get-patched_values j =
        next "webhook_url_allowlist" j docs.of_strings patch.webhook_url_allowlist _ _ (
          next "cors_allow_origins" j docs.of_strings patch.cors_allow_origins _ _ (
            next "rate_limit_per_minute" j limit_value patch.rate_limit_per_minute _ _ (
              next "webhook_timeout_ms" j timeout_value patch.webhook_timeout_ms _ _ (
                next "qr_ttl_seconds" j qr_value patch.qr_ttl_seconds _ _
                  (next "default_currency" j docs.of_text currency stored _ (object, refl))))))

    pub get-with_features :
        (v : json.Value) (f : Option FeaturePatch) (k : String)
        → docs.is_object v ≡ true
        → str_eq "features" k ≡ false
        → json.get (with_features json docs f v) k ≡ json.get v k
    get-with_features v none k h other = refl
    get-with_features v (some f) k h other = laws.get-insert "features" k _ v h ∙ rw other refl
