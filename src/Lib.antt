-- ===== src/Lib.antt =====
-- VegaTrix: a payment orchestrator in Rust, with tenants, merchants, connectors to payment rails and a
-- ledger of payments in PostgreSQL. This library models its core and proves what the core promises.
--
-- The parts and how they work together:
--   * Domain (crates/openpay-domain): statuses and their table of transitions (Domain.Status), money
--     (Domain.Money), payments, attempts and commands (Domain.Payment), routing policies and the
--     fallback test (Domain.Routing), prefixed identifiers (Domain.Ids), errors (Domain.Error).
--   * Crypto (crates/openpay-crypto): HMAC tags with the comparison in constant time (Crypto.Hmac),
--     QR tokens (Crypto.Qr), webhook signatures (Crypto.Webhook) and sealed secrets (Crypto.Envelope).
--     The hash, hexadecimal, Base64, JSON, AES-GCM and the text of an i64 are third-party code: the
--     records Crypto.Library, Crypto.Envelope.Cipher and Crypto.Webhook.IntText hold them as
--     parameters, and the records Codes, Signs and Seals are what they promise for one text.
--   * Persistence (crates/openpay-persistence/src/store.rs, migrations): the tables are lists of rows
--     (Persistence.Db); a query or a transaction is a function of the tables that returns a result or
--     an error and the tables it leaves (Persistence.Payments, Merchants, Catalog, Nonces, Outbox,
--     Webhooks, Accounts, Sealing); Persistence.Payments.Refine is the abstract store of payments. The
--     unique indexes and the checks of the schema are tests inside the statements that they stop. Each
--     transaction is one step, which is what the row lock of transition_payment gives; two
--     transactions are compared in the order in which they commit.
--   * Connectors (crates/openpay-connectors, connector-*): the interface and its errors
--     (Connectors.Api), the ledger that the sandbox connectors share (Connectors.Ledger), and the mock,
--     manual and open banking connectors.
--   * Application (crates/openpay-application): the data of the ports (Application.Ports),
--     service calls as functions of a world of tables, clock readings and drawn UUIDs
--     (Application.Exec), the payment service (Application.Payments, Application.Creation), the
--     evaluation of routing policies (Application.Routing), the loop over the connectors
--     (Application.Attempts), authorisation (Application.Authorize), reconciliation
--     (Application.Reconcile) and the verification of QR tokens (Application.Claims,
--     Application.Qr).
--   * Worker (crates/openpay-worker/src/lib.rs): the addresses that a webhook may be sent to
--     (Worker.Net), the circuit breaker of an endpoint (Worker.Circuit), the run that turns outbox
--     records into deliveries (Worker.Publish), signing and sending one delivery (Worker.Send) and the
--     loop over the deliveries with its retries (Worker.Deliver). Resolving names, reading URLs and
--     networks, sending requests and random numbers are the parameters NetLibrary and WorkerEnv.
--   * Api (crates/openpay-api/src): errors and the answers they become (Api.Error), handlers over the
--     world of the services (Api.Http), sessions and API keys (Api.Auth, auth.rs) and the endpoints for
--     merchants (Api.Merchant, merchant.rs and dto.rs), the payment page (Api.Public, public.rs) and the
--     limits on requests (Api.Limit, middleware/mod.rs), and the sandbox laboratory (Api.Sandbox,
--     sandbox.rs). Tokens, digests and password hashes are the parameter AuthLibrary, the counters in
--     Redis the answers of Api.Limit.Counter.
--   * Administration (crates/openpay-api/src/admin.rs): Api.Admin holds what its handlers share, with
--     random bytes, password hashes, the order of texts and the reading of URLs as the parameter
--     AdminEnv; Api.Admin.Keys has the API keys, Api.Admin.Hooks the webhook endpoints with their
--     secrets and deliveries, Api.Admin.Connectors the connectors with their sealed references,
--     Api.Admin.Operator the settings (with state.rs) and Api.Admin.Payments the overview, the routing
--     policies, reconciliation and decisions by hand. Their queries are Persistence.Admin. The settings
--     of the running process are an argument of the handlers that read them; update_settings runs on a
--     Process, the world with those settings, and replaces them (state.rs). JSON documents are the
--     parameters Json and Documents, and the record DocumentLaws is what serde_json promises for them.
--   * Config (crates/openpay-config/src/lib.rs): the checks of a configuration. The settings that an
--     operator may change are Persistence.Settings (settings.rs), the texts of status columns
--     Persistence.Mapping, the rows of payments and attempts Persistence.Mapping.Rows (map.rs).
--
-- State and operations: apply_status builds a command, an audit event and an outbox event and hands
-- them to transition_payment; cancel_payment, refund_payment, get_payment (which expires what is due),
-- authorize_payment and reconcile_payment all change a payment through it. What was committed before
-- an error stays committed, so a service call returns the world beside its error.
--
-- Numbers and bounds: an i64 amount is an integer; an i32 version is its bit pattern below 2^32 and
-- wraps round; a UUID is a number; an instant counts nanoseconds since 1970. The loops run over lists
-- that exist before they start (candidates, rows), so no fuel is needed. A column keeps an instant to the
-- microsecond, which Persistence.Mapping.Rows models; the other tables hold instants whole. The expiry of
-- a token is a plain number: a negative one, which the code reads as expired, counts as malformed. An
-- attempt count of a delivery is an i32 as well; jitter is counted in units of 2^-53 seconds. The number
-- of failures of an endpoint only counts up and is a plain number.
--
-- Not modelled: the table of routes, the texts of the view of the settings, tick and the endless loop
-- of the worker, reading the environment, the start-up of the binaries, the web front ends and the
-- other SDKs; losing the database connection; a lock that is poisoned; the foreign keys of attempts,
-- audit events, outbox events, endpoints and deliveries, and the uniqueness of UUIDs as primary keys
-- (the foreign keys of payments and API keys are checked); JSON documents beyond the fields that the
-- core reads and writes; logging and metrics.
mod Base
pub mod Domain
pub mod Crypto
pub mod Application
pub mod Persistence
pub mod Connectors
pub mod Api
pub mod Config
pub mod Worker
mod Tests
