-- ===== src/Worker/Net/Safe.antt =====
-- What a webhook target must be to pass `assert_safe_webhook_url`
-- (crates/openpay-worker/src/lib.rs).
use vega_trix.Base.{
  ℕ, ◌≡◌, ◌↔◌, ◌⊎◌, inl, inr, String, true, false, ◌&&◌, none, some, List, [], ◌∷◌, Result, ok, err,
  bind-ok, ok_or-ok, fail_if-ok, arith, is_empty, not, Option-cases, Result-cases, Each,
}
use vega_trix.Worker.Net.{
  IpAddr, Url, NetLibrary, WebhookDnsPolicy, is_metadata_ip, is_metadata_host, host_in_allowlist,
  is_blocked_ip, webhook_dns_policy, check_resolved, check_host, assert_safe_webhook_url, said_by,
  or_eighty, rejects,
}

module _ (net : NetLibrary) where
  said_by-ok : {A : Type 0} (r : Result String A) {a : A} → said_by r ≡ ok a → r ≡ ok a
  said_by-ok (ok b) h = cc
  said_by-ok (err e) h = cc

  -- An address that a name may resolve to under a policy.
  abbrev pub IsReachable : WebhookDnsPolicy → IpAddr → Type 0
  IsReachable policy ip =
      (is_metadata_ip ip ≡ false) × (is_blocked_ip net ip && rejects policy ≡ false)

  check_resolved_iff :
      (policy : WebhookDnsPolicy) (ips : List IpAddr)
      → (check_resolved net policy ips ≡ ok tt) ↔ Each (IsReachable policy) ips
  unfolding check_resolved
  check_resolved_iff policy [] = ground arith
  check_resolved_iff policy (ip ∷ ips) = ground (arith, check_resolved_iff policy ips)

  -- The host is listed, or there is no list.
  abbrev pub IsAdmitted : List ℕ → List (List ℕ) → Type 0
  IsAdmitted host allowlist =
      (is_metadata_host host ≡ false)
      × ((is_empty allowlist ≡ true) ⊎ (host_in_allowlist host allowlist ≡ true))

  webhook_dns_policy-literal :
      (host : List ℕ) (allowlist : List (List ℕ)) (ip : IpAddr) {policy : WebhookDnsPolicy}
      → net.parse_ip host ≡ some ip
      → webhook_dns_policy net host allowlist ≡ ok policy
      → IsAdmitted host allowlist × (is_blocked_ip net ip ≡ false)
  unfolding webhook_dns_policy
  webhook_dns_policy-literal host allowlist ip e h = ground arith

  webhook_dns_policy-name :
      (host : List ℕ) (allowlist : List (List ℕ)) {policy : WebhookDnsPolicy}
      → net.parse_ip host ≡ none
      → webhook_dns_policy net host allowlist ≡ ok policy
      → IsAdmitted host allowlist × (rejects policy ≡ not (host_in_allowlist host allowlist))
  unfolding webhook_dns_policy
  webhook_dns_policy-name host allowlist e h = ground arith

  -- An address that a name on the list, or not on it, may resolve to.
  abbrev pub IsPermitted : List ℕ → List (List ℕ) → IpAddr → Type 0
  IsPermitted host allowlist ip =
      (is_metadata_ip ip ≡ false)
      × ((is_blocked_ip net ip ≡ false) ⊎ (host_in_allowlist host allowlist ≡ true))

  Each-IsPermitted :
      (host : List ℕ) (allowlist : List (List ℕ)) (policy : WebhookDnsPolicy) (ips : List IpAddr)
      → rejects policy ≡ not (host_in_allowlist host allowlist)
      → Each (IsReachable policy) ips
      → Each (IsPermitted host allowlist) ips
  Each-IsPermitted host allowlist policy [] e h = tt
  Each-IsPermitted host allowlist policy (ip ∷ ips) e h =
      ground (arith, Each-IsPermitted host allowlist policy ips)

  -- Where the host leads: an address that is not internal, or a name all of whose addresses are
  -- permitted.
  abbrev pub IsSafeTarget : List ℕ → ℕ → List (List ℕ) → Type 0
  IsSafeTarget host port allowlist =
      ((ip : IpAddr) × (net.parse_ip host ≡ some ip) × (is_blocked_ip net ip ≡ false))
      ⊎ ((ips : List IpAddr) × (net.lookup_host host port ≡ ok ips)
          × Each (IsPermitted host allowlist) ips)

  check_host-name :
      (host : List ℕ) (port : ℕ) (policy : WebhookDnsPolicy)
      → net.parse_ip host ≡ none
      → check_host net host port policy ≡ ok tt
      → (ips : List IpAddr) × (net.lookup_host host port ≡ ok ips) × Each (IsReachable policy) ips
  unfolding check_host
  check_host-name host port policy e h = elim (Result-cases (net.lookup_host host port)) [
    | inl (ips, el) ↦ (
      ips,
      el,
      let c : check_resolved net policy ips ≡ ok tt = ground arith in
          ground (arith, check_resolved_iff policy ips),
    )
    | inr (why, el) ↦ ground arith
  ]

  check_host-IsSafeTarget :
      (host : List ℕ) (port : ℕ) (allowlist : List (List ℕ)) (policy : WebhookDnsPolicy)
      → webhook_dns_policy net host allowlist ≡ ok policy
      → check_host net host port policy ≡ ok tt
      → IsAdmitted host allowlist × IsSafeTarget host port allowlist
  check_host-IsSafeTarget host port allowlist policy hp h =
      elim (Option-cases (net.parse_ip host)) [
        | inl e ↦
            let (admitted, listed) = webhook_dns_policy-name host allowlist e hp in
            let (ips, el, each) = check_host-name host port policy e h in
            (admitted, inr (ips, el, Each-IsPermitted host allowlist policy ips listed each))
        | inr (ip, e) ↦
            let (admitted, fine) = webhook_dns_policy-literal host allowlist ip e hp in
            (admitted, inl (ip, e, fine))
      ]

  -- A URL that passes has a host which is no metadata name and is on the allowlist, if there is one. The
  -- host is an address that is not refused, or a name of whose addresses none is the metadata service
  -- and none is refused, unless the name is on the allowlist.
  pub assert_safe_webhook_url_guard :
      (url : List ℕ) (allowlist : List (List ℕ))
      → assert_safe_webhook_url net url allowlist ≡ ok tt
      → (parsed : Url) × (host : List ℕ) × (net.parse_url url ≡ ok parsed)
        × (parsed.host_str ≡ some host)
        × IsAdmitted host allowlist
        × IsSafeTarget host (or_eighty parsed.port_or_known_default) allowlist
  unfolding assert_safe_webhook_url
  assert_safe_webhook_url_guard url allowlist h =
      let (parsed, e1, h1) = bind-ok _ _ h in
      let (_, h2) = fail_if-ok _ _ _ h1 in
      let (host, e3, h3) = bind-ok _ _ h2 in
      let (policy, e4, h4) = bind-ok _ _ h3 in
      let (admitted, target) =
        check_host-IsSafeTarget host (or_eighty parsed.port_or_known_default) allowlist policy e4
          h4 in
      (parsed, host, said_by-ok _ e1, ok_or-ok _ _ e3, admitted, target)
