-- ===== src/Worker/Net/Blocked.antt =====
-- Which addresses `is_blocked_ip` refuses (crates/openpay-worker/src/lib.rs).
use vega_trix.Base.{
  ℕ, ◌<◌, ◌≤◌, ◌/◌, ◌≡◌, refl, ◌↔◌, ◌⊎◌, Bool, true, false, ◌&&◌, ◌||◌, ◌==◌, arith,
}
use vega_trix.Worker.Net.{
  IpAddr, v4, v6, NetLibrary, in_net, is_blocked_ip, is_loopback, is_unspecified, is_multicast,
  is_metadata_ip, is_private_v4,
}

-- A network of IPv4, by a test on the first two octets; it holds no IPv6 address.
abbrev pub v4_net : (ℕ → ℕ → Bool) → IpAddr → Bool
v4_net p (v4 a b c d) = p a b
v4_net p (v6 s0 s1 s2 s3 s4 s5 s6 s7) = false

-- A network of IPv6, by a test on the first segment; it holds no IPv4 address.
abbrev pub v6_net : (ℕ → Bool) → IpAddr → Bool
v6_net p (v4 a b c d) = false
v6_net p (v6 s0 s1 s2 s3 s4 s5 s6 s7) = p s0

abbrev pub is_loopback_v6 : IpAddr → Bool
is_loopback_v6 (v4 a b c d) = false
is_loopback_v6 (v6 s0 s1 s2 s3 s4 s5 s6 s7) =
    s0 == 0 && s1 == 0 && s2 == 0 && s3 == 0 && s4 == 0 && s5 == 0 && s6 == 0 && s7 == 1

-- ipnet reads the ten networks as RFC 4632 and RFC 4291 write them: an address is in one when its
-- leading bits are those of the network.
abbrev pub ReadsNets : NetLibrary → Type 0
ReadsNets net =
    (ip : IpAddr)
    → (in_net net ip "0.0.0.0/8" ≡ v4_net (λ a b. a == 0) ip)
      × (in_net net ip "10.0.0.0/8" ≡ v4_net (λ a b. a == 10) ip)
      × (in_net net ip "127.0.0.0/8" ≡ v4_net (λ a b. a == 127) ip)
      × (in_net net ip "169.254.0.0/16" ≡ v4_net (λ a b. a == 169 && b == 254) ip)
      × (in_net net ip "172.16.0.0/12" ≡ v4_net (λ a b. a == 172 && b / 16 == 1) ip)
      × (in_net net ip "192.168.0.0/16" ≡ v4_net (λ a b. a == 192 && b == 168) ip)
      × (in_net net ip "224.0.0.0/4" ≡ v4_net (λ a b. a / 16 == 14) ip)
      × (in_net net ip "::1/128" ≡ is_loopback_v6 ip)
      × (in_net net ip "fc00::/7" ≡ v6_net (λ s. s / 512 == 126) ip)
      × (in_net net ip "fe80::/10" ≡ v6_net (λ s. s / 64 == 1018) ip)

-- The octets and segments are in their range.
abbrev pub IsAddress : IpAddr → Type 0
IsAddress (v4 a b c d) = (a < 256) × (b < 256) × (c < 256) × (d < 256)
IsAddress (v6 s0 s1 s2 s3 s4 s5 s6 s7) = s0 < 65536

abbrev pub AllZero : ℕ → ℕ → ℕ → ℕ → ℕ → ℕ → ℕ → Type 0
AllZero s0 s1 s2 s3 s4 s5 s6 =
    (s0 ≡ 0) × (s1 ≡ 0) × (s2 ≡ 0) × (s3 ≡ 0) × (s4 ≡ 0) × (s5 ≡ 0) × (s6 ≡ 0)

-- The address is of this host, of a private or link-local network, or a multicast group.
abbrev pub IsInternal : IpAddr → Type 0
IsInternal (v4 a b c d) =
    (a ≡ 0)
    ⊎ (a ≡ 10)
    ⊎ (a ≡ 127)
    ⊎ ((a ≡ 169) × (b ≡ 254))
    ⊎ ((a ≡ 172) × (16 ≤ b) × (b ≤ 31))
    ⊎ ((a ≡ 192) × (b ≡ 168))
    ⊎ ((224 ≤ a) × (a ≤ 239))
IsInternal (v6 s0 s1 s2 s3 s4 s5 s6 s7) =
    (AllZero s0 s1 s2 s3 s4 s5 s6 × (s7 ≤ 1))
    ⊎ ((0xfc00 ≤ s0) × (s0 ≤ 0xfdff))
    ⊎ ((0xfe80 ≤ s0) × (s0 ≤ 0xfebf))
    ⊎ (0xff00 ≤ s0)

-- `is_blocked_ip` on an IPv4 address, by its first two octets.
blocked_v4 : ℕ → ℕ → Bool
blocked_v4 a b =
    a == 0
    || a == 10
    || a == 127
    || (a == 169 && b == 254)
    || (a == 172 && b / 16 == 1)
    || (a == 192 && b == 168)
    || a / 16 == 14

is_blocked_ip-v4 :
    (net : NetLibrary) (a b c d : ℕ)
    → ReadsNets net
    → is_blocked_ip net (v4 a b c d) ≡ blocked_v4 a b
unfolding is_blocked_ip is_loopback is_unspecified is_multicast is_metadata_ip is_private_v4
    blocked_v4
is_blocked_ip-v4 net a b c d reads = ground (arith, reads (v4 a b c d))

-- `is_blocked_ip` on an IPv6 address.
blocked_v6 : (s0 s1 s2 s3 s4 s5 s6 s7 : ℕ) → Bool
unfolding is_unspecified is_loopback
blocked_v6 s0 s1 s2 s3 s4 s5 s6 s7 =
    let ip : IpAddr = v6 s0 s1 s2 s3 s4 s5 s6 s7 in
    is_loopback ip || is_unspecified ip || s0 / 256 == 255 || s0 / 512 == 126 || s0 / 64 == 1018

is_blocked_ip-v6 :
    (net : NetLibrary) (s0 s1 s2 s3 s4 s5 s6 s7 : ℕ)
    → ReadsNets net
    → is_blocked_ip net (v6 s0 s1 s2 s3 s4 s5 s6 s7) ≡ blocked_v6 s0 s1 s2 s3 s4 s5 s6 s7
unfolding is_blocked_ip is_multicast is_metadata_ip is_private_v4 blocked_v6
is_blocked_ip-v6 net s0 s1 s2 s3 s4 s5 s6 s7 reads =
    ground (arith, reads (v6 s0 s1 s2 s3 s4 s5 s6 s7))

blocked_v4-IsInternal : (a b c d : ℕ) → (blocked_v4 a b ≡ true) ↔ IsInternal (v4 a b c d)
unfolding blocked_v4
blocked_v4-IsInternal a b c d = ground arith

blocked_v6-IsInternal :
    (s0 s1 s2 s3 s4 s5 s6 s7 : ℕ)
    → s0 < 65536
    → (blocked_v6 s0 s1 s2 s3 s4 s5 s6 s7 ≡ true) ↔ IsInternal (v6 s0 s1 s2 s3 s4 s5 s6 s7)
unfolding blocked_v6 is_loopback is_unspecified
blocked_v6-IsInternal s0 s1 s2 s3 s4 s5 s6 s7 small = ground arith

-- ipnet reading the ten networks, an address with octets or segments in range is refused exactly when
-- it is internal: of this host, private, link-local or a multicast group.
pub is_blocked_ip_iff :
    (net : NetLibrary) (ip : IpAddr)
    → ReadsNets net
    → IsAddress ip
    → (is_blocked_ip net ip ≡ true) ↔ IsInternal ip
is_blocked_ip_iff net (v4 a b c d) reads valid =
    rw (is_blocked_ip-v4 net a b c d reads) (blocked_v4-IsInternal a b c d)
is_blocked_ip_iff net (v6 s0 s1 s2 s3 s4 s5 s6 s7) reads small =
    rw (is_blocked_ip-v6 net s0 s1 s2 s3 s4 s5 s6 s7 reads)
      (blocked_v6-IsInternal s0 s1 s2 s3 s4 s5 s6 s7 small)

-- ipnet reading the ten networks, the IPv6 form of an IPv4 address passes, whatever the IPv4 address is:
-- also that of a private network or of the metadata service.
pub is_blocked_ip-mapped :
    (net : NetLibrary) (g h : ℕ)
    → ReadsNets net
    → is_blocked_ip net (v6 0 0 0 0 0 0xffff g h) ≡ false
unfolding blocked_v6 is_loopback is_unspecified
is_blocked_ip-mapped net g h reads = rw (is_blocked_ip-v6 net 0 0 0 0 0 0xffff g h reads) refl
