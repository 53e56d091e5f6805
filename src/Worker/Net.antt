-- ===== src/Worker/Net.antt =====
-- The addresses that a webhook may be sent to (crates/openpay-worker/src/lib.rs). Reading a URL, an
-- address or a network and resolving a name belong to the crates url, ipnet and tokio and to the
-- standard library: they are parameters.
pub mod Blocked
pub mod Safe
use mathlib.Core.List.{reverse}
use vega_trix.Base.{
  ℕ, String, Bool, true, false, not, ◌&&◌, ◌||◌, Option, none, some, List, [], ◌∷◌, map, Result, ok,
  err, ◌>>=◌, ◌>>◌, str_eq, ok_or, fail_if, any, is_empty, ◌==◌, leb, if◌then◌else◌, ◌/◌,
}
use vega_trix.Base.Text.{codes, text_eq, to_lower, trim}

-- `IpAddr`: four octets, or eight segments of sixteen bits.
pub data IpAddr : Type 0 where
  v4 : (a b c d : ℕ) → IpAddr
  v6 : (s0 s1 s2 s3 s4 s5 s6 s7 : ℕ) → IpAddr

-- A URL that was read, as far as the worker looks at it.
pub record Url : Type 0 where
  pub scheme : String
  pub host_str : Option (List ℕ)
  pub port_or_known_default : Option ℕ

pub record NetLibrary : Type 0 where
  -- `Url::parse`
  pub parse_url : List ℕ → Result String Url
  -- `str::parse::<IpAddr>`
  pub parse_ip : List ℕ → Option IpAddr
  -- `str::parse::<IpNet>` and `IpNet::contains`: `none` for a text that is no network
  pub parse_net : String → Option (IpAddr → Bool)
  -- `lookup_host`
  pub lookup_host : List ℕ → ℕ → Result String (List IpAddr)

-- The texts of the errors: a literal or one of a library, or the address that was resolved.
pub data UrlError : Type 0 where
  said : String → UrlError
  resolved : IpAddr → UrlError

pub data WebhookDnsPolicy : Type 0 where
  allow_private_resolution reject_private_resolution : WebhookDnsPolicy

abbrev pub private_nets : List String
private_nets =
    "0.0.0.0/8" ∷ "10.0.0.0/8" ∷ "127.0.0.0/8" ∷ "169.254.0.0/16" ∷ "172.16.0.0/12"
    ∷ "192.168.0.0/16" ∷ "224.0.0.0/4" ∷ "::1/128" ∷ "fc00::/7" ∷ "fe80::/10" ∷ []

abbrev pub metadata_hosts : List String
metadata_hosts = "metadata.google.internal" ∷ "metadata.google.com" ∷ "169.254.169.254" ∷ []

-- `Ipv4Addr::is_loopback`, `Ipv6Addr::is_loopback`
unfoldable pub is_loopback : IpAddr → Bool
is_loopback (v4 a b c d) = a == 127
is_loopback (v6 s0 s1 s2 s3 s4 s5 s6 s7) =
    s0 == 0 && s1 == 0 && s2 == 0 && s3 == 0 && s4 == 0 && s5 == 0 && s6 == 0 && s7 == 1

unfoldable pub is_unspecified : IpAddr → Bool
is_unspecified (v4 a b c d) = a == 0 && b == 0 && c == 0 && d == 0
is_unspecified (v6 s0 s1 s2 s3 s4 s5 s6 s7) =
    s0 == 0 && s1 == 0 && s2 == 0 && s3 == 0 && s4 == 0 && s5 == 0 && s6 == 0 && s7 == 0

unfoldable pub is_multicast : IpAddr → Bool
is_multicast (v4 a b c d) = leb 224 a && leb a 239
is_multicast (v6 s0 s1 s2 s3 s4 s5 s6 s7) = s0 / 256 == 255

-- `Ipv4Addr::is_private() || is_link_local()`; false for the other kind of address
unfoldable pub is_private_v4 : IpAddr → Bool
is_private_v4 (v4 a b c d) =
    a == 10
    || (a == 172 && leb 16 b && leb b 31)
    || (a == 192 && b == 168)
    || (a == 169 && b == 254)
is_private_v4 (v6 s0 s1 s2 s3 s4 s5 s6 s7) = false

-- `is_metadata_ip`
unfoldable pub is_metadata_ip : IpAddr → Bool
is_metadata_ip (v4 a b c d) = a == 169 && b == 254 && c == 169 && d == 254
is_metadata_ip (v6 s0 s1 s2 s3 s4 s5 s6 s7) = false

-- `str::trim_matches` at a test on characters
trim_start_by : (ℕ → Bool) → List ℕ → List ℕ
trim_start_by p [] = []
trim_start_by p (c ∷ s) = let rest = trim_start_by p s in if p c then rest else c ∷ s

unfoldable pub trim_matches : (ℕ → Bool) → List ℕ → List ℕ
unfolding trim_start_by
trim_matches p s = reverse (trim_start_by p (reverse (trim_start_by p s)))

-- `str::eq_ignore_ascii_case`
unfoldable pub same_host : List ℕ → List ℕ → Bool
same_host s t = text_eq (map to_lower s) (map to_lower t)

-- `is_metadata_host`
unfoldable pub is_metadata_host : List ℕ → Bool
unfolding same_host
is_metadata_host host =
    let name = trim_matches (λ c. c == b'[' || c == b']') (trim host) in
    any (λ blocked. same_host name (codes blocked)) metadata_hosts

-- `host_in_allowlist`
unfoldable pub host_in_allowlist : List ℕ → List (List ℕ) → Bool
unfolding same_host
host_in_allowlist host allowlist = any (λ entry. same_host host (trim entry)) allowlist

abbrev pub not_listed : List ℕ → List (List ℕ) → Bool
not_listed host allowlist = not (is_empty allowlist) && not (host_in_allowlist host allowlist)

abbrev pub rejects : WebhookDnsPolicy → Bool
rejects allow_private_resolution = false
rejects reject_private_resolution = true

abbrev pub said_by : {A : Type 0} → Result String A → Result UrlError A
said_by (ok a) = ok a
said_by (err e) = err (said e)

abbrev pub or_eighty : Option ℕ → ℕ
or_eighty none = 80
or_eighty (some p) = p

module _ (net : NetLibrary) where
  unfoldable pub in_net : IpAddr → String → Bool
  in_net ip cidr = elim (net.parse_net cidr) [ none ↦ false | some contains ↦ contains ip ]

  -- `is_blocked_ip`
  unfoldable pub is_blocked_ip : IpAddr → Bool
  is_blocked_ip ip =
      if is_loopback ip || is_unspecified ip || is_multicast ip
      then true
      else if is_metadata_ip ip
      then true
      else if is_private_v4 ip
      then true
      else any (in_net ip) private_nets

  -- `webhook_dns_policy`
  unfoldable pub webhook_dns_policy : List ℕ → List (List ℕ) → Result UrlError WebhookDnsPolicy
  webhook_dns_policy host allowlist =
      if is_metadata_host host
      then err (said "metadata endpoint blocked")
      else elim (net.parse_ip host) [
        | some ip ↦
            if is_metadata_ip ip || is_blocked_ip ip
            then err (said "private IP blocked")
            else if not_listed host allowlist
            then err (said "host not in allowlist")
            else ok reject_private_resolution
        | none ↦
            if not_listed host allowlist
            then err (said "host not in allowlist")
            else if host_in_allowlist host allowlist
            then ok allow_private_resolution
            else ok reject_private_resolution
      ]

  -- The loop over the addresses that a name resolves to.
  unfoldable pub check_resolved : WebhookDnsPolicy → List IpAddr → Result UrlError (Unit {0})
  check_resolved policy [] = ok tt
  check_resolved policy (ip ∷ rest) =
      let others = check_resolved policy rest in
      if is_metadata_ip ip
      then err (said "metadata endpoint blocked")
      else if is_blocked_ip ip && rejects policy
      then err (resolved ip)
      else others

  -- What `assert_safe_webhook_url` does once the host passed `webhook_dns_policy`.
  unfoldable pub check_host : List ℕ → ℕ → WebhookDnsPolicy → Result UrlError (Unit {0})
  unfolding check_resolved
  check_host host port policy = elim (net.parse_ip host) [
    | some ip ↦ ok tt
    | none ↦ said_by (net.lookup_host host port) >>= check_resolved policy
  ]

  -- `assert_safe_webhook_url`
  unfoldable pub assert_safe_webhook_url : List ℕ → List (List ℕ) → Result UrlError (Unit {0})
  assert_safe_webhook_url url allowlist = do
    parsed ← said_by (net.parse_url url)
    fail_if (not (str_eq parsed.scheme "https") && not (str_eq parsed.scheme "http"))
        (said "unsupported scheme")
    host ← ok_or parsed.host_str (said "missing host")
    policy ← webhook_dns_policy host allowlist
    check_host host (or_eighty parsed.port_or_known_default) policy
