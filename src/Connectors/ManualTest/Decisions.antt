-- ===== src/Connectors/ManualTest/Decisions.antt =====
-- An operator's decision on a manual attempt (crates/connector-manual-test/src/lib.rs).
use vega_trix.Base.{◌≡◌, Bool, false, some, ok, String, arith, eq_refl, if◌then◌else◌}
use vega_trix.Domain.Status.{AttemptStatus}
use vega_trix.Connectors.Api.{Sandbox}
use vega_trix.Connectors.Ledger.{status_of, get-put}
use vega_trix.Connectors.ManualTest.{key, is_final, resolve, fetch_attempt}

-- A decision on an open attempt is what every later poll answers, and a second decision, whichever it
-- is, changes nothing.
resolve_once :
    (reference : String) (first second : Bool) (s : Sandbox) (current : AttemptStatus)
    → status_of key reference s.rows ≡ some current
    → is_final current ≡ false
    → let s' = (resolve reference first s).1 in
      ((fetch_attempt reference s').0
        ≡ ok (record {
          provider_reference = reference;
          status = if first then AttemptStatus.settled else AttemptStatus.failed;
        }))
      × (resolve reference second s' ≡ (ok tt, s'))
unfolding resolve fetch_attempt
resolve_once reference first second s current found open_still =
    let chosen = if first then AttemptStatus.settled else AttemptStatus.failed in
    ground (
      arith,
      found,
      get-put key key reference reference chosen s.rows,
      eq_refl key,
      eq_refl reference,
    )
