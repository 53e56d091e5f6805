-- ===== src/Tests/Nets.antt =====
-- The address checks and signatures on concrete inputs.
use vega_trix.Base.{
  ◌/◌, ◌≡◌, ◌↔◌, refl, String, Bool, true, ◌&&◌, Option, none, some, [], ◌∷◌, ok, str_eq, ◌==◌,
  if◌then◌else◌, arith,
}
use vega_trix.Worker.Net.{IpAddr, v4, NetLibrary, in_net, is_blocked_ip}
use vega_trix.Worker.Net.Blocked.{
  v4_net, v6_net, is_loopback_v6, ReadsNets, IsInternal, is_blocked_ip_iff,
}

abbrev nets : String → Option (IpAddr → Bool)
nets s =
    if str_eq s "0.0.0.0/8"
    then some (v4_net λ a b. a == 0)
    else if str_eq s "10.0.0.0/8"
    then some (v4_net λ a b. a == 10)
    else if str_eq s "127.0.0.0/8"
    then some (v4_net λ a b. a == 127)
    else if str_eq s "169.254.0.0/16"
    then some (v4_net λ a b. a == 169 && b == 254)
    else if str_eq s "172.16.0.0/12"
    then some (v4_net λ a b. a == 172 && b / 16 == 1)
    else if str_eq s "192.168.0.0/16"
    then some (v4_net λ a b. a == 192 && b == 168)
    else if str_eq s "224.0.0.0/4"
    then some (v4_net λ a b. a / 16 == 14)
    else if str_eq s "::1/128"
    then some is_loopback_v6
    else if str_eq s "fc00::/7"
    then some (v6_net λ s. s / 512 == 126)
    else if str_eq s "fe80::/10"
    then some (v6_net λ s. s / 64 == 1018)
    else none

-- One host, which resolves to one public address.
abbrev pub lab : NetLibrary
lab = record {
  parse_url = λ s.
      ok (record {
        scheme = "https";
        host_str = some (b'h' ∷ []);
        port_or_known_default = some 443;
      });
  parse_ip = λ s. none;
  parse_net = nets;
  lookup_host = λ host port. ok (v4 8 8 8 8 ∷ []);
}

pub lab-ReadsNets : ReadsNets lab
unfolding in_net
lab-ReadsNets ip = (refl, refl, refl, refl, refl, refl, refl, refl, refl, refl)

is_blocked_ip_iff_example : (is_blocked_ip lab (v4 172 31 0 9) ≡ true) ↔ IsInternal (v4 172 31 0 9)
is_blocked_ip_iff_example = is_blocked_ip_iff lab (v4 172 31 0 9) lab-ReadsNets (omega arith)
