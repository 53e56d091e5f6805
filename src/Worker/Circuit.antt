-- ===== src/Worker/Circuit.antt =====
-- The circuit breaker of a webhook endpoint (crates/openpay-worker/src/lib.rs).
use vega_trix.Base.{ℕ, ◌-◌, ltb, leb, if◌then◌else◌}
use vega_trix.Base.Machine.{Instant, seconds}

abbrev pub webhook_circuit_threshold : ℕ
webhook_circuit_threshold = 20

abbrev pub webhook_circuit_cooldown_secs : ℕ
webhook_circuit_cooldown_secs = 60

pub data CircuitState : Type 0 where
  closed opened half_open : CircuitState

-- `webhook_circuit_state`. A difference that the source has below zero is 0 here; neither reaches the
-- cooldown.
unfoldable pub webhook_circuit_state : ℕ → Instant → Instant → CircuitState
webhook_circuit_state failure_count last_updated now =
    if ltb failure_count webhook_circuit_threshold
    then closed
    else if leb (seconds webhook_circuit_cooldown_secs) (now - last_updated)
    then half_open
    else opened
