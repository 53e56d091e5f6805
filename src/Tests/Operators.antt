-- ===== src/Tests/Operators.antt =====
-- The settings of the operator and a decision by hand, on concrete inputs.
use vega_trix.Base.{
  ℕ, ◌≡◌, refl, inr, String, Bool, true, false, Option, none, some, List, [], ◌∷◌, ok, arith,
  str_eq, if◌then◌else◌,
}
use vega_trix.Base.Int.{ℤ, pos}
use vega_trix.Base.Text.{codes, utf8, trim, is_whitespace}
use vega_trix.Domain.Status.{AttemptStatus, PaymentStatus}
use vega_trix.Domain.Payment.{PaymentAttempt}
use vega_trix.Domain.Status.Table.{settle}
use vega_trix.Domain.Payment.Moves.{moved_to}
use vega_trix.Connectors.Ledger.{status_of}
use vega_trix.Connectors.ManualTest.{is_final}
use vega_trix.Application.Attempts.{new_attempt}
use vega_trix.Application.Exec.{World}
use vega_trix.Persistence.Settings.{
  OperatorSettings, Json, clamp, clamp_ℤ, overlay_json, upsert_tenant_settings_json, overlay_flags,
  overlay_values, currency_of,
}
use vega_trix.Persistence.Accounts.{get_tenant_settings_json}
use vega_trix.Config.{is_production}
use vega_trix.Api.Auth.{require_admin}
use vega_trix.Api.Admin.Operator.{
  Documents, OperatorDefaults, OperatorPatch, checked_currency, patched_features, patched_values,
  apply_operator_patch, settings, store_patched, patch_settings, update_settings, Process,
  replace_operator, operator_snapshot, operator_from_config,
}
use vega_trix.Api.Admin.Operator.Reads.{DocumentLaws}
use vega_trix.Api.Admin.Operator.Patch.{Patched, apply_operator_patch-Patched}
use vega_trix.Api.Admin.Operator.Kept.{update_settings-settings}
use vega_trix.Api.Admin.Payments.{resolve_found}
use vega_trix.Api.Admin.Payments.Manual.{resolve_found-kept}
use vega_trix.Tests.Data.{shop, noon, running}
use vega_trix.Tests.Store.{shop-IsKeyed}
use vega_trix.Tests.Service.{first_try}
use vega_trix.Tests.Callers.{user}
use vega_trix.Tests.Limits.{live, defaults}
use vega_trix.Tests.Desk.{desk}

-- A document: an object is a list of entries.
data Document : Type 0 where
  nothing : Document
  entry : String → Document → Document → Document
  text : List ℕ → Document
  whole : ℤ → Document
  natural : ℕ → Document
  flag : Bool → Document
  strings : List (List ℕ) → Document

abbrev value_at : Document → String → Option Document
value_at (entry k v rest) key =
    let other = value_at rest key in if str_eq k key then some v else other
value_at _ key = none

abbrev documents : Json
documents = record {
  Value = Document;
  get = value_at;
  as_str = λ v. elim v [ text s ↦ some s | _ ↦ none ];
  as_i64 = λ v. elim v [ whole n ↦ some n | _ ↦ none ];
  as_u64 = λ v. elim v [ natural n ↦ some n | _ ↦ none ];
  as_bool = λ v. elim v [ flag b ↦ some b | _ ↦ none ];
  strings = λ v. elim v [ strings l ↦ some l | _ ↦ none ];
}

abbrev inserted : String → Document → Document → Document
inserted k a nothing = entry k a nothing
inserted k a (entry j v rest) = entry k a (entry j v rest)
inserted k a v = v

abbrev is_object : Document → Bool
is_object nothing = true
is_object (entry _ _ _) = true
is_object _ = false

-- One text stands for one document.
abbrev library : Documents documents
library = record {
  parse =
      λ s. if str_eq s "longer" then entry "qr_ttl_seconds" (whole (pos 600)) nothing else nothing;
  print = λ v. "longer";
  is_object = is_object;
  empty = nothing;
  insert = inserted;
  of_text = text;
  of_i64 = whole;
  of_u64 = natural;
  of_bool = flag;
  of_strings = strings;
}

get-inserted :
    (k j : String) (a v : Document)
    → is_object v ≡ true
    → value_at (inserted k a v) j ≡ (if str_eq k j then some a else value_at v j)
get-inserted k j a nothing h = refl
get-inserted k j a (entry _ _ _) h = refl
get-inserted k j a (text _) h = cc
get-inserted k j a (whole _) h = cc
get-inserted k j a (natural _) h = cc
get-inserted k j a (flag _) h = cc
get-inserted k j a (strings _) h = cc

is_object-inserted : (k : String) (a v : Document) → is_object (inserted k a v) ≡ is_object v
is_object-inserted k a nothing = refl
is_object-inserted k a (entry _ _ _) = refl
is_object-inserted k a (text _) = refl
is_object-inserted k a (whole _) = refl
is_object-inserted k a (natural _) = refl
is_object-inserted k a (flag _) = refl
is_object-inserted k a (strings _) = refl

library_laws : DocumentLaws documents library
library_laws = record {
  get-insert = get-inserted;
  is_object-insert = is_object-inserted;
  as_str-of_text = λ t. refl;
  as_i64-of_i64 = λ n. refl;
  as_u64-of_u64 = λ n. refl;
  strings-of_strings = λ l. refl;
}

abbrev unchanged : OperatorPatch
unchanged = record {
  default_currency = none;
  qr_ttl_seconds = none;
  webhook_timeout_ms = none;
  rate_limit_per_minute = none;
  cors_allow_origins = none;
  webhook_url_allowlist = none;
  features = none;
}

abbrev dollars : OperatorPatch
dollars = record unchanged {
  default_currency = some (codes " usd ");
  rate_limit_per_minute = some 99999;
  features = some (record {
    connector_mock = some true;
    connector_open_banking = none;
    telemetry_opt_in = none;
  });
}

abbrev before_patch : Document
before_patch = entry "qr_ttl_seconds" (whole (pos 60)) nothing

abbrev after_patch : Document
after_patch = entry "features" (entry "connector_mock" (flag true) nothing) (
    entry "rate_limit_per_minute" (natural 10000)
      (entry "default_currency" (text (codes "USD")) before_patch))

in_dollars : apply_operator_patch documents library before_patch dollars ≡ ok after_patch
unfolding apply_operator_patch checked_currency patched_values patched_features trim is_whitespace
    utf8 clamp
in_dollars = refl

apply_operator_patch-Patched_example :
    Patched documents library library_laws dollars
      (overlay_json documents before_patch defaults)
      (overlay_json documents after_patch defaults)
apply_operator_patch-Patched_example =
    apply_operator_patch-Patched documents library library_laws dollars before_patch after_patch
      defaults in_dollars

abbrev fallbacks : OperatorDefaults
fallbacks = record {
  default_currency = codes "EUR";
  qr_ttl_seconds = pos 300;
  webhook_timeout_ms = 5000;
  rate_limit_per_minute = 120;
  cors_allow_origins = [];
  telemetry_opt_in = false;
}

abbrev longer : OperatorPatch
longer = record unchanged { qr_ttl_seconds = some (pos 600) }

abbrev longer_document : Document
longer_document = entry "qr_ttl_seconds" (whole (pos 600)) nothing

-- A process that starts with the defaults.
abbrev started : Process
started = record { world = noon; operator = defaults }

abbrev longer_run : Process
longer_run = (update_settings documents library live fallbacks user longer started).1

abbrev longer_settings : OperatorSettings
longer_settings = record defaults {
  qr_ttl_seconds = pos 600;
  webhook_url_allowlist = codes "shop.example" ∷ [];
  feature_connector_mock = false;
}

made_longer :
    update_settings documents library live fallbacks user longer started
    ≡ (ok (longer_settings, longer_document), longer_run)
unfolding update_settings patch_settings replace_operator require_admin is_production
    apply_operator_patch checked_currency patched_values store_patched clamp_ℤ overlay_json
    get_tenant_settings_json upsert_tenant_settings_json overlay_flags overlay_values currency_of
    operator_from_config
made_longer = refl

update_settings-settings_example :
    (settings documents library live fallbacks user longer_run.world
      ≡ (ok (longer_settings, some "longer"), longer_run.world))
    × (operator_snapshot longer_run ≡ longer_settings)
update_settings-settings_example =
    update_settings-settings documents library live fallbacks user longer started longer_run
      longer_settings longer_document made_longer refl

-- An attempt that the operator once refused.
abbrev refused_attempt : PaymentAttempt
refused_attempt = record first_try {
  connector_key = "manual-test";
  provider_reference = some "man-1";
}

abbrev refused_in : World
refused_in = record noon {
  db = record shop {
    sandbox =
        record {
          connector_key = "manual-test";
          provider_reference = "man-1";
          status = AttemptStatus.failed;
        }
        ∷ [];
  };
}

resolve_found-kept_example :
    ((resolve_found desk user true refused_attempt refused_in).0
      ≡ ok (moved_to running PaymentStatus.settled 501))
    × (status_of "manual-test" "man-1"
          (resolve_found desk user true refused_attempt refused_in).1.db.sandbox
        ≡ some AttemptStatus.failed)
unfolding status_of new_attempt is_final
resolve_found-kept_example =
    resolve_found-kept desk user true refused_attempt "man-1" running AttemptStatus.failed
      refused_in refl refl refl shop-IsKeyed (λ due. ground arith) (inr settle)
