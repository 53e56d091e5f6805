-- ===== src/Persistence/Settings/Overlay.antt =====
-- The bounds that a change of the settings keeps (crates/openpay-persistence/src/settings.rs).
use vega_trix.Base.{
  ℕ, ◌≤◌, ◌≡◌, refl, true, not, Option, none, some, List, [], ◌∷◌, all, is_empty, arith, inl, inr,
  Option-cases,
}
use vega_trix.Base.Int.{ℤ, pos, negsuc}
use vega_trix.Persistence.Settings.{
  OperatorSettings, Json, clamp, clamp_ℤ, string_list, changed, overlay_flags, overlay_values,
  overlay_json,
}

abbrev pub Between : ℕ → ℕ → ℕ → Type 0
Between low high n = (low ≤ n) × (n ≤ high)

abbrev pub IsTtl : ℤ → Type 0
IsTtl z = (n : ℕ) × (z ≡ pos n) × Between 30 3600 n

abbrev pub AreFilled : List (List ℕ) → Type 0
AreFilled texts = all (λ t. not (is_empty t)) texts ≡ true

-- The settings are within their bounds.
pub record IsBounded (s : OperatorSettings) : Type 0 where
  pub ttl : IsTtl s.qr_ttl_seconds
  pub timeout : Between 500 60000 s.webhook_timeout_ms
  pub rate : Between 1 10000 s.rate_limit_per_minute
  pub origins : AreFilled s.cors_allow_origins
  pub hosts : AreFilled s.webhook_url_allowlist

clamp-bounds : (low high n : ℕ) → low ≤ high → Between low high (clamp low high n)
unfolding clamp
clamp-bounds low high n h = ground arith

clamp_ℤ-bounds :
    (low high : ℕ) (n : ℤ)
    → low ≤ high
    → (m : ℕ) × (clamp_ℤ low high n ≡ pos m) × Between low high m
unfolding clamp_ℤ clamp
clamp_ℤ-bounds low high (pos n) h = (clamp low high n, ground arith, clamp-bounds low high n h)
clamp_ℤ-bounds low high (negsuc n) h = (low, ground arith, (omega arith, h))

string_list-filled :
    (strings : List (List ℕ)) → all (λ o. not (is_empty o)) (string_list strings) ≡ true
unfolding string_list
string_list-filled [] = refl
string_list-filled (s ∷ strings) = ground (arith, string_list-filled strings)

-- A setting keeps a bound that every new value has.
changed_keeps :
    {A B : Type 0} (P : B → Type 0) (o : Option A) (f : A → B) (old : B)
    → ((a : A) → P (f a))
    → P old
    → P (changed o f old)
changed_keeps P none f old new held = held
changed_keeps P (some a) f old new held = new a

module _ (json : Json) where
  overlay_values-IsBounded :
      (value : json.Value) (s : OperatorSettings)
      → IsBounded s
      → IsBounded (overlay_values json value s)
  unfolding overlay_values
  overlay_values-IsBounded value s b = record {
    ttl =
        changed_keeps IsTtl _ (clamp_ℤ 30 3600) s.qr_ttl_seconds
          (λ n. clamp_ℤ-bounds 30 3600 n (omega arith)) b.ttl;
    timeout =
        changed_keeps (Between 500 60000) _ (clamp 500 60000) s.webhook_timeout_ms
          (λ n. clamp-bounds 500 60000 n (omega arith)) b.timeout;
    rate =
        changed_keeps (Between 1 10000) _ (clamp 1 10000) s.rate_limit_per_minute
          (λ n. clamp-bounds 1 10000 n (omega arith)) b.rate;
    origins =
        changed_keeps AreFilled _ string_list s.cors_allow_origins string_list-filled b.origins;
    hosts =
        changed_keeps AreFilled _ string_list s.webhook_url_allowlist string_list-filled b.hosts;
  }

  -- Whatever document an operator sends, settings within their bounds stay so: the lifetime of a QR code
  -- between half a minute and an hour, the timeout of a webhook between half a second and a minute, the
  -- limit of requests between 1 and 10000, and no empty origin or host on a list.
  pub overlay_json-IsBounded :
      (value : json.Value) (s : OperatorSettings)
      → IsBounded s
      → IsBounded (overlay_json json value s)
  unfolding overlay_json overlay_flags
  overlay_json-IsBounded value s b =
      let kept = overlay_values-IsBounded value s b in
      elim (Option-cases (json.get value "features")) [
        | inl e ↦
            rw (e, overlay_json)
              (record {
                ttl = kept.ttl;
                timeout = kept.timeout;
                rate = kept.rate;
                origins = kept.origins;
                hosts = kept.hosts;
              })
        | inr (features, e) ↦
            rw (e, overlay_json)
              (record {
                ttl = kept.ttl;
                timeout = kept.timeout;
                rate = kept.rate;
                origins = kept.origins;
                hosts = kept.hosts;
              })
      ]
