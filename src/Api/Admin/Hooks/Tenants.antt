-- ===== src/Api/Admin/Hooks/Tenants.antt =====
-- Which tenants the endpoints of the administration reach (crates/openpay-api/src/admin.rs).
use vega_trix.Base.{
  ℕ, ◌≡◌, refl, ap, ◌∙◌, true, not, ◌&&◌, Bool, Option, none, some, List, [], ◌∷◌, map, ok, err,
  all, select, ◌==◌, arith, Result, Each, HasOne, any-HasOne, all-Each, Result-cases, ok-injective,
  inl, inr,
}
use mathlib.Core.Path.{subst}
use vega_trix.Base.Machine.{Uuid}
use vega_trix.Base.Sort.{sort_by, insert_by}
use vega_trix.Domain.Webhook.{WebhookEndpoint, WebhookDelivery}
use vega_trix.Crypto.Qr.{pay}
use vega_trix.Application.Exec.{World}
use vega_trix.Persistence.Db.{Db, DeliveryRow}
use vega_trix.Persistence.Admin.{
  EndpointChange, changed_endpoint, is_own, found, is_sent_by, is_about, updated,
  update_webhook_endpoint, list_deliveries_for_payment,
}
use vega_trix.Persistence.Settings.{OperatorSettings}
use vega_trix.Api.Error.{ApiError}
use vega_trix.Api.Http.{Http, continue}
use vega_trix.Api.Auth.{AuthContext, require_admin}
use vega_trix.Api.Admin.{AdminEnv, parse_id}
use vega_trix.Api.Admin.Hooks.{
  UpdateWebhookBody, hook_prefix, checked_url, parse_endpoint_status, store_change,
  change_webhook_endpoint, list_webhook_deliveries,
}

-- The endpoints of all tenants but one.
abbrev pub others : Uuid → Db → List WebhookEndpoint
others tenant db = select (λ e. not (e.tenant_id == tenant)) db.webhook_endpoints

updated-others :
    (tenant id : Uuid) (c : EndpointChange) (t : ℕ) (rows : List WebhookEndpoint)
    → select
        (λ e. not (e.tenant_id == tenant))
        (updated (is_own tenant id) (changed_endpoint c t) rows)
      ≡ select (λ e. not (e.tenant_id == tenant)) rows
updated-others tenant id c t [] = refl
updated-others tenant id c t (e ∷ rows) = ground (arith, updated-others tenant id c t rows)

found_db : {A : Type 0} (o : Option A) (db : Db) → (found o db).1 ≡ db
found_db none db = refl
found_db (some a) db = refl

store-others :
    (tenant id : Uuid) (c : EndpointChange) (t : ℕ) (db : Db)
    → others tenant (update_webhook_endpoint tenant id c t db).1 ≡ others tenant db
unfolding update_webhook_endpoint
store-others tenant id c t db =
    ap (others tenant) (found_db _ _) ∙ updated-others tenant id c t db.webhook_endpoints

all-insert_by :
    {A : Type 0} (before : A → A → Bool) (p : A → Bool) (x : A) (xs : List A)
    → p x ≡ true
    → all p xs ≡ true
    → all p (insert_by before x xs) ≡ true
unfolding insert_by
all-insert_by before p x [] hx h = rw hx refl
all-insert_by before p x (y ∷ ys) hx h = ground (arith, all-insert_by before p x ys hx)

all-sort_by :
    {A : Type 0} (before : A → A → Bool) (p : A → Bool) (xs : List A)
    → all p xs ≡ true
    → all p (sort_by before xs) ≡ true
unfolding sort_by
all-sort_by before p [] h = refl
all-sort_by before p (x ∷ xs) h =
    ground (arith, all-insert_by before p x (sort_by before xs), all-sort_by before p xs)

all-select_rows :
    (tenant id : Uuid) (db : Db) (rows : List DeliveryRow)
    → all (is_sent_by tenant db) (
        map
          (λ row. row.delivery)
          (select (λ row. is_sent_by tenant db row.delivery && is_about id row.payload) rows))
      ≡ true
all-select_rows tenant id db [] = refl
all-select_rows tenant id db (row ∷ rows) = ground (arith, all-select_rows tenant id db rows)

-- One of the endpoints is the one that the delivery went to, and belongs to the tenant.
abbrev pub IsSentTo : Uuid → List WebhookEndpoint → WebhookDelivery → Type 0
IsSentTo tenant endpoints d =
    HasOne (λ e. (e.id ≡ d.webhook_endpoint_id) × (e.tenant_id ≡ tenant)) endpoints

is_sent_by-IsSentTo :
    (tenant : Uuid) (db : Db) (d : WebhookDelivery)
    → is_sent_by tenant db d ≡ true
    → IsSentTo tenant db.webhook_endpoints d
is_sent_by-IsSentTo tenant db d h =
    any-HasOne (λ e. e.id == d.webhook_endpoint_id && e.tenant_id == tenant) _
      (λ e same. ground arith) db.webhook_endpoints h

-- A check in front of a handler changes nothing.
guard-others :
    {A B : Type 0} (tenant : Uuid) (r : Result ApiError A) (f : A → Http B) (w : World)
    → ((a : A) → others tenant (f a w).1.db ≡ others tenant w.db)
    → others tenant (continue r f w).1.db ≡ others tenant w.db
guard-others tenant (ok a) f w h = h a
guard-others tenant (err e) f w h = refl

module _ (env : AdminEnv) where
  -- An administrator changes no endpoint of another tenant, whatever the request is and whatever it
  -- is answered.
  pub change_webhook_endpoint-others :
      (op : OperatorSettings) (auth : AuthContext) (endpoint_id : List ℕ) (body : UpdateWebhookBody)
      (w : World)
      → others auth.tenant_id (change_webhook_endpoint env op auth endpoint_id body w).1.db
        ≡ others auth.tenant_id w.db
  unfolding change_webhook_endpoint store_change
  change_webhook_endpoint-others op auth endpoint_id body w =
      let t = auth.tenant_id in
      guard-others t (require_admin auth) _ w λ _.
        guard-others t (parse_id env hook_prefix endpoint_id) _ w λ id.
          guard-others t (checked_url env body.url op.webhook_url_allowlist) _ w λ _.
            guard-others t (parse_endpoint_status body.status) _ w
              λ status. store-others t id _ (w.clock w.read) w.db

  -- The deliveries for a payment are those to endpoints of the administrator's own tenant; without a
  -- payment the answer is the same for the administrators of all tenants.
  pub list_webhook_deliveries-tenant :
      (a b : AuthContext) (w : World)
      → require_admin a ≡ ok tt
      → require_admin b ≡ ok tt
      → ((raw : List ℕ) (ds : List WebhookDelivery) (w' : World)
          → list_webhook_deliveries env a (some raw) w ≡ (ok ds, w')
          → Each (IsSentTo a.tenant_id w.db.webhook_endpoints) ds)
        × (list_webhook_deliveries env a none w ≡ list_webhook_deliveries env b none w)
  unfolding list_webhook_deliveries list_deliveries_for_payment
  list_webhook_deliveries-tenant a b w ha hb = (
    λ raw ds w' h. elim (Result-cases (parse_id env pay raw)) [
      | inl (id, e) ↦
          all-Each (is_sent_by a.tenant_id w.db) _ (is_sent_by-IsSentTo a.tenant_id w.db) ds (
            subst (λ xs. all (is_sent_by a.tenant_id w.db) xs ≡ true)
              (ok-injective (ap (λ r. r.0) (rw (ha, e) at h)))
              (all-sort_by _ (is_sent_by a.tenant_id w.db) _
                (all-select_rows a.tenant_id id w.db w.db.webhook_deliveries)))
      | inr (_, e) ↦ absurd (cc (rw (ha, e) at h))
    ],
    rw (ha, hb) refl,
  )
