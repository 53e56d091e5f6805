-- ===== src/Worker/Send/Safe.antt =====
-- Which targets `send_one` calls (crates/openpay-worker/src/lib.rs).
use vega_trix.Base.{
  ℕ, ◌≡◌, ◌≢◌, refl, ◌⊎◌, inl, inr, String, true, false, Option, none, some, List, [], ◌∷◌, Result,
  ok, err, map, any, arith, is_empty, Result-cases, Each, HasOne, any-HasOne, ◌==◌, ◌||◌,
}
use vega_trix.Base.Text.{codes, trim, to_lower, text_eq_refl, text_eq-eq}
use vega_trix.Domain.Webhook.{WebhookEndpoint}
use vega_trix.Application.Ports.{EventPayload}
use vega_trix.Application.Exec.{World}
use vega_trix.Persistence.Accounts.{get_tenant_settings_json}
use vega_trix.Worker.Net.{
  IpAddr, v4, Url, NetLibrary, UrlError, is_metadata_ip, is_metadata_host, host_in_allowlist,
  is_blocked_ip, assert_safe_webhook_url, or_eighty, metadata_hosts, same_host, trim_matches,
}
use vega_trix.Worker.Net.Blocked.{ReadsNets, IsAddress, IsInternal, is_blocked_ip_iff}
use vega_trix.Worker.Net.Safe.{IsPermitted, assert_safe_webhook_url_guard}
use vega_trix.Worker.Send.{WorkerEnv, WebhookRequest, ssrf, policy_of, send_under, send_one}

-- The host without the brackets of an IPv6 literal, in lower case.
abbrev pub bare : List ℕ → List ℕ
bare host = map to_lower (trim_matches (λ c. c == b'[' || c == b']') (trim host))

-- The host is no name of the metadata service.
abbrev pub IsNoMetadata : List ℕ → Type 0
IsNoMetadata host = Each (λ name. bare host ≢ map to_lower (codes name)) metadata_hosts

-- The host stands in the list, in whatever case.
abbrev pub IsListed : List ℕ → List (List ℕ) → Type 0
IsListed host allowlist = HasOne (λ entry. map to_lower host ≡ map to_lower (trim entry)) allowlist

-- The address is not internal.
abbrev pub IsPublic : IpAddr → Type 0
IsPublic ip = IsAddress ip → ¬ IsInternal ip

abbrev pub IsCallable : List ℕ → List (List ℕ) → IpAddr → Type 0
IsCallable host allowlist ip = (ip ≢ v4 169 254 169 254) × (IsPublic ip ⊎ IsListed host allowlist)

-- A URL that may be called under an allowlist.
abbrev pub IsSafeUrl : NetLibrary → List ℕ → List (List ℕ) → Type 0
IsSafeUrl net url allowlist =
    (parsed : Url) × (host : List ℕ) × (net.parse_url url ≡ ok parsed)
    × (parsed.host_str ≡ some host)
    × IsNoMetadata host
    × ((allowlist ≡ []) ⊎ IsListed host allowlist)
    × (((ip : IpAddr) × (net.parse_ip host ≡ some ip) × IsPublic ip)
        ⊎ ((ips : List IpAddr) × (net.lookup_host host (or_eighty parsed.port_or_known_default)
              ≡ ok ips)
            × Each (IsCallable host allowlist) ips))

none-Each :
    (name : List ℕ) (names : List String)
    → any (λ blocked. same_host name (codes blocked)) names ≡ false
    → Each (λ blocked. map to_lower name ≢ map to_lower (codes blocked)) names
unfolding same_host
none-Each name [] h = tt
none-Each name (blocked ∷ names) h = (
  λ same. cc (rw same at h, text_eq_refl (map to_lower (codes blocked))),
  none-Each name names (ground arith),
)

is_metadata_host-none : (host : List ℕ) → is_metadata_host host ≡ false → IsNoMetadata host
unfolding is_metadata_host
is_metadata_host-none host h = none-Each _ metadata_hosts h

host_in_allowlist-IsListed :
    (host : List ℕ) (allowlist : List (List ℕ))
    → host_in_allowlist host allowlist ≡ true
    → IsListed host allowlist
unfolding host_in_allowlist same_host
host_in_allowlist-IsListed host allowlist h =
    any-HasOne (λ entry. same_host host (trim entry)) _
      (λ entry same. text_eq-eq (map to_lower host) (map to_lower (trim entry)) same) allowlist h

is_metadata_ip-no : (ip : IpAddr) → is_metadata_ip ip ≡ false → ip ≢ v4 169 254 169 254
unfolding is_metadata_ip
is_metadata_ip-no ip h same = cc (rw same at h)

empty : (allowlist : List (List ℕ)) → is_empty allowlist ≡ true → allowlist ≡ []
empty [] h = refl
empty (host ∷ hosts) h = cc

module _ (net : NetLibrary) (reads : ReadsNets net) where
  is_blocked_ip-IsPublic : (ip : IpAddr) → is_blocked_ip net ip ≡ false → IsPublic ip
  is_blocked_ip-IsPublic ip h valid internal =
      cc (h, (is_blocked_ip_iff net ip reads valid).1 internal)

  IsPermitted-Each :
      (host : List ℕ) (allowlist : List (List ℕ)) (ips : List IpAddr)
      → Each (IsPermitted net host allowlist) ips
      → Each (IsCallable host allowlist) ips
  IsPermitted-Each host allowlist [] h = tt
  IsPermitted-Each host allowlist (ip ∷ ips) ((away, inl fine), rest) = (
    (is_metadata_ip-no ip away, inl (is_blocked_ip-IsPublic ip fine)),
    IsPermitted-Each host allowlist ips rest,
  )
  IsPermitted-Each host allowlist (ip ∷ ips) ((away, inr listed), rest) = (
    (is_metadata_ip-no ip away, inr (host_in_allowlist-IsListed host allowlist listed)),
    IsPermitted-Each host allowlist ips rest,
  )

  assert_safe_webhook_url-IsSafeUrl :
      (url : List ℕ) (allowlist : List (List ℕ))
      → assert_safe_webhook_url net url allowlist ≡ ok tt
      → IsSafeUrl net url allowlist
  assert_safe_webhook_url-IsSafeUrl url allowlist h =
      let (parsed, host, e, named, (far, admitted), target) =
        assert_safe_webhook_url_guard net url allowlist h in
      (
        parsed,
        host,
        e,
        named,
        is_metadata_host-none host far,
        elim admitted [
          | inl none_listed ↦ inl (empty allowlist none_listed)
          | inr listed ↦ inr (host_in_allowlist-IsListed host allowlist listed)
        ],
        elim target [
          | inl (ip, literal, fine) ↦ inl (ip, literal, is_blocked_ip-IsPublic ip fine)
          | inr (ips, found, each) ↦ inr (ips, found, IsPermitted-Each host allowlist ips each)
        ],
      )

-- The client is not asked about the policy.
policy_of-post :
    (env : WorkerEnv) (post : World → WebhookRequest → Result String ℕ) (json : Option String)
    → policy_of (record env { post = post }) json ≡ policy_of env json
unfolding policy_of
policy_of-post env post none = refl
policy_of-post env post (some json) = refl

send_under-unsafe :
    (env : WorkerEnv) (json : Option String) (endpoint : WebhookEndpoint)
    (payload : Option EventPayload) (w : World) (e : UrlError)
    (post : World → WebhookRequest → Result String ℕ)
    → get_tenant_settings_json endpoint.tenant_id w.db ≡ (ok json, w.db)
    → assert_safe_webhook_url (env.net w) endpoint.url (policy_of env json).1 ≡ err e
    → send_one (record env { post = post }) endpoint payload w ≡ (ok (err (ssrf e)), w)
unfolding send_one send_under
send_under-unsafe env json endpoint payload w e post stored bad =
    rw (stored, policy_of-post env post json, send_under, bad) refl

-- The worker only calls a URL that is safe under the allowlist in force, ipnet reading the networks of
-- `is_blocked_ip`: its host is no name of the metadata service and is on the allowlist, if there is
-- one, and it is an address that is not internal, or a name of whose addresses none is the metadata
-- service and none is internal, unless the name is on the allowlist. Otherwise no request is made:
-- whatever the HTTP client would answer, the outcome is the same error and nothing changes.
pub send_one_guard :
    (env : WorkerEnv) (endpoint : WebhookEndpoint) (payload : Option EventPayload) (w : World)
    (json : Option String)
    → ReadsNets (env.net w)
    → get_tenant_settings_json endpoint.tenant_id w.db ≡ (ok json, w.db)
    → IsSafeUrl (env.net w) endpoint.url (policy_of env json).1
      ⊎ ((e : UrlError) × ((post : World → WebhookRequest → Result String ℕ)
            → send_one (record env { post = post }) endpoint payload w ≡ (ok (err (ssrf e)), w)))
send_one_guard env endpoint payload w json reads stored =
    elim (Result-cases (assert_safe_webhook_url (env.net w) endpoint.url (policy_of env json).1)) [
      | inl (u, good) ↦ inl (
          assert_safe_webhook_url-IsSafeUrl (env.net w) reads endpoint.url (policy_of env json).1
            good)
      | inr (e, bad) ↦
          inr (e, λ post. send_under-unsafe env json endpoint payload w e post stored bad)
    ]
