-- ===== src/Tests/Network.antt =====
-- A request that comes through two proxies, with a forged entry in its header.
use yaadegar.Base.{
  String, List, true, false, ◌≡◌, refl, [], ◌∷◌, none, some, ◌==◌, if◌then◌else◌, string_discrete,
}
use yaadegar.Api.ClientIp.{Net, in_some, parts, hops, client_ip, consults, resolve_client_ip}
use yaadegar.Api.ClientIp.Unspoofed.{resolve_client_ip-unspoofed}

-- Addresses as they are written; a range is an address that it has.
abbrev plain_net : Net String String
plain_net = record {
  split_host_port = λ s. if s == "10.0.0.1:443" then some "10.0.0.1" else none;
  parse_addr = λ s. if s == "unknown" then none else some s;
  parse_prefix = λ s. none;
  unmap = λ a. a;
  addr_string = λ a. a;
  bit_len = λ a. 32;
  prefix_from = λ a bits. a;
  masked = λ p. p;
  prefix_contains = λ p a. p == a;
  contains = λ s part. false;
  split = λ s sep. if s == "unknown, 203.0.113.7" then "unknown" ∷ " 203.0.113.7" ∷ [] else s ∷ [];
  trim_space = λ s. if s == " 203.0.113.7" then "203.0.113.7" else s;
}

abbrev known_proxies : List String
known_proxies = "10.0.0.1" ∷ "10.0.0.2" ∷ []

abbrev forwarded : List String
forwarded = "unknown, 203.0.113.7" ∷ "10.0.0.2" ∷ []

consults_run : consults plain_net (client_ip plain_net "10.0.0.1:443") known_proxies ≡ true
unfolding consults client_ip in_some string_discrete
consults_run = refl

hops_run : hops plain_net forwarded ≡ "unknown" ∷ "203.0.113.7" ∷ "10.0.0.2" ∷ []
unfolding hops parts string_discrete
hops_run = refl

resolve_client_ip-unspoofed_example :
    resolve_client_ip plain_net "10.0.0.1:443" forwarded known_proxies ≡ "203.0.113.7"
unfolding in_some string_discrete
resolve_client_ip-unspoofed_example =
    resolve_client_ip-unspoofed plain_net "10.0.0.1:443" forwarded known_proxies ("unknown" ∷ [])
      "203.0.113.7" "203.0.113.7" ("10.0.0.2" ∷ []) consults_run hops_run refl refl
      (("10.0.0.2", refl, refl), tt)
