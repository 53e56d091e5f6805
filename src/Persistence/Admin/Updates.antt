-- ===== src/Persistence/Admin/Updates.antt =====
-- What an update of one row answers (crates/openpay-persistence/src/settings.rs).
use mathlib.Core.Option
use vega_trix.Base.{
  ℕ, ◌≡◌, refl, sym, ap, ◌∙◌, String, Bool, true, Option, some, List, ok, arith, map, find,
  find-map, find-some, Option-cases, Result, ok-injective, inl, inr, if◌then◌else◌,
}
use vega_trix.Base.Machine.{Uuid, Instant}
use vega_trix.Domain.Webhook.{WebhookEndpoint}
use vega_trix.Application.Ports.{RepositoryError}
use vega_trix.Persistence.Db.{Db, ConnectorRow}
use vega_trix.Persistence.Admin.{
  found, updated, EndpointChange, changed_endpoint, is_own, update_webhook_endpoint, is_reached,
  changed_connector, update_connector_admin,
}

module _ {A : Type 0} (p : A → Bool) (f : A → A) (rows : List A)
    (same : (a : A) → p (if p a then f a else a) ≡ p a) where
  find-updated : find p (updated p f rows) ≡ Option.map f (find p rows)
  find-updated = elim (Option-cases (find p rows)) [
    | inl gone ↦ moved ∙ ap (Option.map f') gone ∙ sym (ap (Option.map f) gone)
    | inr (old, there) ↦
        moved
        ∙ ap (Option.map f') there
        ∙ changed old (find-some p rows there)
        ∙ sym (ap (Option.map f) there)
  ]
    where
      f' : A → A
      f' a = if p a then f a else a

      moved : find p (map f' rows) ≡ Option.map f' (find p rows)
      moved = find-map p f' rows same

      changed : (old : A) → p old ≡ true → some (f' old) ≡ some (f old)
      changed old h = rw h refl

  found-updated :
      (db db' : Db) (e : A)
      → found (find p (updated p f rows)) db ≡ (ok e, db')
      → (find p (updated p f rows) ≡ some e) × ((old : A) × (e ≡ f old)) × (db' ≡ db)
  found-updated db db' e h = elim (Option-cases (find p rows)) [
    | inl gone ↦ absurd (cc (rw (find-updated ∙ ap (Option.map f) gone) at h))
    | inr (old, there) ↦
        let now_there = find-updated ∙ ap (Option.map f) there in
        let answer : ◌≡◌ {A = Result RepositoryError A × Db} (ok (f old), db) (ok e, db') =
          rw now_there at h in
        let is = ok-injective (ap (λ r. r.0) answer) in
        (now_there ∙ ap some is, (old, sym is), sym (ap (λ r. r.1) answer))
  ]

-- The answer of `update_webhook_endpoint` is the row that the table then holds, with the change made.
pub update_webhook_endpoint-ok :
    (tenant id : Uuid) (c : EndpointChange) (t : Instant) (db db' : Db) (e : WebhookEndpoint)
    → update_webhook_endpoint tenant id c t db ≡ (ok e, db')
    → (find (is_own tenant id) db'.webhook_endpoints ≡ some e)
      × ((old : WebhookEndpoint) × (e ≡ changed_endpoint c t old))
unfolding update_webhook_endpoint
update_webhook_endpoint-ok tenant id c t db db' e h =
    let (there, change, is) =
      found-updated (is_own tenant id) (changed_endpoint c t) db.webhook_endpoints
        (λ a. ground arith) _ db' e h in
    (rw is there, change)

-- The same of `update_connector_admin`.
pub update_connector_admin-ok :
    (tenant : Uuid) (key : String) (enabled : Option Bool) (refer : Option (List ℕ)) (db db' : Db)
    (row : ConnectorRow)
    → update_connector_admin tenant key enabled refer db ≡ (ok row, db')
    → (find (is_reached tenant key) db'.connectors ≡ some row)
      × ((old : ConnectorRow) × (row ≡ changed_connector enabled refer old))
unfolding update_connector_admin
update_connector_admin-ok tenant key enabled refer db db' row h =
    let (there, change, is) =
      found-updated (is_reached tenant key) (changed_connector enabled refer) db.connectors
        (λ a. ground arith) _ db' row h in
    (rw is there, change)
