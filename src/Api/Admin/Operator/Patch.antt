-- ===== src/Api/Admin/Operator/Patch.antt =====
-- What a patch of the settings changes (crates/openpay-api/src/admin.rs,
-- crates/openpay-persistence/src/settings.rs).
use vega_trix.Base.{
  ℕ, ◌≡◌, ◌≤◌, ◌∷◌, [], length-append, refl, sym, ap, ◌∙◌, String, true, false, Option, none, some,
  List, map, ok, ok-injective, Result-cases, str_eq, arith, length, ◌==◌, Option-cases, Bool-cases,
  inl, inr,
}
use vega_trix.Base.Int.{ℤ}
use vega_trix.Base.Text.{to_upper, trim, utf8, utf8_char}
use vega_trix.Persistence.Settings.{
  OperatorSettings, Json, clamp, clamp_ℤ, string_list, changed, chain, currency_of, overlay_flags,
  overlay_values, overlay_json,
}
use vega_trix.Api.Admin.Operator.Reads.{DocumentLaws, under, get-patched_values, get-with_features}
use vega_trix.Api.Admin.Operator.{
  Documents, OperatorPatch, checked_currency, with_features, patched_values, apply_operator_patch,
}

clamp_again : (low high n : ℕ) → low ≤ high → clamp low high (clamp low high n) ≡ clamp low high n
unfolding clamp
clamp_again low high n h = ground arith

clamp_ℤ_again : (n : ℤ) → clamp_ℤ 30 3600 (clamp_ℤ 30 3600 n) ≡ clamp_ℤ 30 3600 n
unfolding clamp_ℤ
clamp_ℤ_again n = ground arith

upper_again : (s : List ℕ) → map to_upper (map to_upper s) ≡ map to_upper s
upper_again [] = refl
upper_again (c ∷ s) = ground (arith, upper_again s)

length-upper_char : (c : ℕ) → length (utf8_char (to_upper c)) ≡ length (utf8_char c)
unfolding utf8_char
length-upper_char c = ground arith

length-upper : (s : List ℕ) → length (utf8 (map to_upper s)) ≡ length (utf8 s)
unfolding utf8
length-upper [] = refl
length-upper (c ∷ s) = ground (
  arith,
  length-append (utf8_char (to_upper c)) (utf8 (map to_upper s)),
  length-append (utf8_char c) (utf8 s),
  length-upper_char c,
  length-upper s,
)

module _ (json : Json) (docs : Documents json) (laws : DocumentLaws json docs) where
  -- A value that a patch sets is read back as the patch means it; one that it leaves out is as before.
  settled :
      {A B C : Type 0} (of : C → json.Value) (read : json.Value → Option A) (f : A → B) (g : C → B)
      (o : Option C) (old : Option json.Value) (before : B)
      → ((c : C) → (a : A) × (read (of c) ≡ some a) × (f a ≡ g c))
      → changed (chain (under json docs laws of o old) read) f before
        ≡ changed o g (changed (chain old read) f before)
  settled of read f g none old before h = refl
  settled of read f g (some c) old before h = let (a, e, same) = h c in rw e same

  -- The flags stand beside the other settings.
  abbrev Agree : OperatorSettings → OperatorSettings → Type 0
  Agree s t =
      (s.default_currency ≡ t.default_currency)
      × (s.qr_ttl_seconds ≡ t.qr_ttl_seconds)
      × (s.webhook_timeout_ms ≡ t.webhook_timeout_ms)
      × (s.rate_limit_per_minute ≡ t.rate_limit_per_minute)
      × (s.cors_allow_origins ≡ t.cors_allow_origins)
      × (s.webhook_url_allowlist ≡ t.webhook_url_allowlist)

  overlay_json-values :
      (v : json.Value) (s : OperatorSettings)
      → Agree (overlay_json json v s) (overlay_values json v s)
  unfolding overlay_json overlay_flags
  overlay_json-values v s = elim (Option-cases (json.get v "features")) [
    | inl e ↦ rw (e, overlay_json) (refl, refl, refl, refl, refl, refl)
    | inr (f, e) ↦ rw (e, overlay_json) (refl, refl, refl, refl, refl, refl)
  ]

  values-with_features :
      (currency : Option (List ℕ)) (patch : OperatorPatch) (stored : json.Value)
      (s : OperatorSettings)
      → docs.is_object stored ≡ true
      → overlay_values json
          (with_features json docs patch.features (patched_values json docs currency patch stored))
          s
        ≡ overlay_values json (patched_values json docs currency patch stored) s
  unfolding overlay_values
  values-with_features currency patch stored s object =
      let v : json.Value = patched_values json docs currency patch stored in
      let is = (get-patched_values json docs laws currency patch stored object "").0 in
      let same = λ (k : String) (other : str_eq "features" k ≡ false).
        get-with_features json docs laws currency patch stored object v patch.features k is other in
      rw
        (
          same "default_currency" refl,
          same "qr_ttl_seconds" refl,
          same "webhook_timeout_ms" refl,
          same "rate_limit_per_minute" refl,
          same "cors_allow_origins" refl,
          same "webhook_url_allowlist" refl,
        )
        refl

  -- What a patch means for the settings that were in force.
  abbrev pub Patched : OperatorPatch → OperatorSettings → OperatorSettings → Type 0
  Patched patch before after =
      (after.default_currency
        ≡ changed patch.default_currency (λ t. map to_upper (trim t)) before.default_currency)
      × (after.qr_ttl_seconds
          ≡ changed patch.qr_ttl_seconds (clamp_ℤ 30 3600) before.qr_ttl_seconds)
      × (after.webhook_timeout_ms
          ≡ changed patch.webhook_timeout_ms (clamp 500 60000) before.webhook_timeout_ms)
      × (after.rate_limit_per_minute
          ≡ changed patch.rate_limit_per_minute (clamp 1 10000) before.rate_limit_per_minute)
      × (after.cors_allow_origins
          ≡ changed patch.cors_allow_origins string_list before.cors_allow_origins)
      × (after.webhook_url_allowlist
          ≡ changed patch.webhook_url_allowlist string_list before.webhook_url_allowlist)

  settled_currency :
      (text : Option (List ℕ)) (currency : Option (List ℕ)) (old : Option json.Value)
      (before : List ℕ)
      → checked_currency text ≡ ok currency
      → currency_of (chain (under json docs laws docs.of_text currency old) json.as_str) before
        ≡ changed text (λ t. map to_upper (trim t)) (currency_of (chain old json.as_str) before)
  unfolding checked_currency currency_of
  settled_currency none currency old before h = rw (← ok-injective {a = none} {b = currency} h) refl
  settled_currency (some t) currency old before h =
      elim (Bool-cases (length (utf8 (trim t)) == 3)) [
        | inl e ↦
            let q : some (map to_upper (trim t)) ≡ currency = ok-injective (rw e at h) in
            rw (← q, laws.as_str-of_text (map to_upper (trim t)), length-upper (trim t), e)
              (upper_again (trim t))
        | inr e ↦ absurd (cc (rw e at h))
      ]

  overlay_values-Patched :
      (patch : OperatorPatch) (currency : Option (List ℕ)) (stored : json.Value)
      (s : OperatorSettings)
      → docs.is_object stored ≡ true
      → checked_currency patch.default_currency ≡ ok currency
      → Patched patch
          (overlay_values json stored s)
          (overlay_values json (patched_values json docs currency patch stored) s)
  unfolding overlay_values
  overlay_values-Patched patch currency stored s object checked = (
    rw ((get-patched_values json docs laws currency patch stored object "default_currency").1)
        (settled_currency patch.default_currency currency _ s.default_currency checked),
    rw ((get-patched_values json docs laws currency patch stored object "qr_ttl_seconds").1) (
        settled _ json.as_i64 (clamp_ℤ 30 3600) (clamp_ℤ 30 3600) patch.qr_ttl_seconds _
          s.qr_ttl_seconds λ n. (clamp_ℤ 30 3600 n, laws.as_i64-of_i64 _, clamp_ℤ_again n)),
    rw ((get-patched_values json docs laws currency patch stored object "webhook_timeout_ms").1) (
        settled _ json.as_u64 (clamp 500 60000) (clamp 500 60000) patch.webhook_timeout_ms _
          s.webhook_timeout_ms
          λ n. (clamp 500 60000 n, laws.as_u64-of_u64 _, clamp_again 500 60000 n (omega arith))),
    rw ((get-patched_values json docs laws currency patch stored object "rate_limit_per_minute").1)
        (settled _ json.as_u64 (clamp 1 10000) (clamp 1 10000) patch.rate_limit_per_minute _
          s.rate_limit_per_minute
          λ n. (clamp 1 10000 n, laws.as_u64-of_u64 _, clamp_again 1 10000 n (omega arith))),
    rw ((get-patched_values json docs laws currency patch stored object "cors_allow_origins").1) (
        settled _ json.strings string_list string_list patch.cors_allow_origins _
          s.cors_allow_origins λ l. (l, laws.strings-of_strings l, refl)),
    rw ((get-patched_values json docs laws currency patch stored object "webhook_url_allowlist").1)
        (settled _ json.strings string_list string_list patch.webhook_url_allowlist _
          s.webhook_url_allowlist λ l. (l, laws.strings-of_strings l, refl)),
  )

  -- A patch of the settings means what it says: each value that it sets is in force afterwards, within the
  -- bounds and in the form that the settings have, and each value that it leaves out is as it was before.
  -- The flags are not spoken of.
  pub apply_operator_patch-Patched :
      (patch : OperatorPatch) (stored patched : json.Value) (s : OperatorSettings)
      → apply_operator_patch json docs stored patch ≡ ok patched
      → Patched patch (overlay_json json stored s) (overlay_json json patched s)
  unfolding apply_operator_patch
  apply_operator_patch-Patched patch stored patched s h =
      elim (Bool-cases (docs.is_object stored)) [
        | inr e ↦ absurd (cc (rw e at h))
        | inl object ↦ elim (Result-cases (checked_currency patch.default_currency)) [
          | inr (_, e) ↦ absurd (cc (rw (object, e) at h))
          | inl (currency, e) ↦
              let a = overlay_json-values patched s in
              let b = overlay_json-values stored s in
              let values =
                ap (λ v. overlay_values json v s) (sym (ok-injective (rw (object, e) at h)))
                ∙ values-with_features currency patch stored s object in
              rw (a.0, a.1, a.2, a.3, a.4, a.5, b.0, b.1, b.2, b.3, b.4, b.5, values)
                (overlay_values-Patched patch currency stored s object e)
        ]
      ]
