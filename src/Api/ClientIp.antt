-- ===== src/Api/ClientIp.antt =====
-- internal/api/clientip.go: the address that the rate limits key on.
pub mod Unspoofed
use yaadegar.Base.{
  ℕ, String, Bool, true, false, not, ◌==◌, List, [], ◌∷◌, ◌++◌, Option, none, some, if◌then◌else◌,
}

-- What the code takes from net, netip and strings. A split host or a parsed address is `none` where
-- the call fails.
pub record Net (Addr Prefix : Type 0) : Type 0 where
  pub split_host_port : String → Option String
  pub parse_addr : String → Option Addr
  pub parse_prefix : String → Option Prefix
  pub unmap : Addr → Addr
  pub addr_string : Addr → String
  pub bit_len : Addr → ℕ
  pub prefix_from : Addr → ℕ → Prefix
  pub masked : Prefix → Prefix
  pub prefix_contains : Prefix → Addr → Bool
  pub contains : String → String → Bool
  pub split : String → String → List String
  pub trim_space : String → String

-- The list of proxies, or the entry that the error names.
pub data Proxies (Prefix : Type 0) : Type 0 where
  proxies : List Prefix → Proxies Prefix
  bad_entry : String → Proxies Prefix

-- The walk over the hops: whether the loop has returned, or the address of the last hop it passed.
pub data Walk : Type 0 where
  returned : String → Walk
  leftmost : String → Walk

module _ {Addr Prefix : Type 0} (net : Net Addr Prefix) where
  entry_prefix : String → Option Prefix
  entry_prefix e = elim (net.contains e "/") [
    | true ↦ elim (net.parse_prefix e) [ none ↦ none | some p ↦ some (net.masked p) ]
    | false ↦ elim (net.parse_addr e) [
      | none ↦ none
      | some a ↦ some (net.prefix_from (net.unmap a) (net.bit_len (net.unmap a)))
    ]
  ]

  add_entry : String → Option Prefix → Proxies Prefix → Proxies Prefix
  add_entry e none rest = Proxies.bad_entry e
  add_entry e (some p) (Proxies.bad_entry e') = Proxies.bad_entry e'
  add_entry e (some p) (Proxies.proxies ps) = Proxies.proxies (p ∷ ps)

  unfoldable pub parse_trusted_proxies : List String → Proxies Prefix
  unfolding entry_prefix add_entry
  parse_trusted_proxies [] = Proxies.proxies []
  parse_trusted_proxies (e ∷ es) =
      let rest = parse_trusted_proxies es in
      let trimmed = net.trim_space e in
      if trimmed == "" then rest else add_entry trimmed (entry_prefix trimmed) rest

  unfoldable pub in_some : Addr → List Prefix → Bool
  in_some addr [] = false
  in_some addr (p ∷ ps) = if net.prefix_contains p addr then true else in_some addr ps

  abbrev pub trusted : Addr → List Prefix → Bool
  trusted addr ps = in_some (net.unmap addr) ps

  -- The parts of a header line that are not blank.
  unfoldable pub parts : List String → List String
  parts [] = []
  parts (part ∷ rest) =
      let hops = parts rest in
      let trimmed = net.trim_space part in if trimmed == "" then hops else trimmed ∷ hops

  unfoldable pub hops : List String → List String
  unfolding parts
  hops [] = []
  hops (h ∷ hs) = parts (net.split h ",") ++ hops hs

  -- What the loop does with one hop.
  unfoldable pub visit : String → List Prefix → Option Addr → Walk
  visit peer ps none = Walk.returned peer
  visit peer ps (some a) =
      if trusted a ps
      then Walk.leftmost (net.addr_string (net.unmap a))
      else Walk.returned (net.addr_string (net.unmap a))

  unfoldable pub pass : String → List Prefix → String → Walk → Walk
  unfolding visit
  pass peer ps hop (Walk.returned ip) = Walk.returned ip
  pass peer ps hop (Walk.leftmost ip) = visit peer ps (net.parse_addr hop)

  -- The loop, which goes from the right: the hops after this one come first.
  unfoldable pub walk : String → List Prefix → List String → Walk
  unfolding pass
  walk peer ps [] = Walk.leftmost ""
  walk peer ps (hop ∷ rest) = pass peer ps hop (walk peer ps rest)

  answer : String → Walk → String
  answer peer (Walk.returned ip) = ip
  answer peer (Walk.leftmost ip) = if ip == "" then peer else ip

  -- `clientIP`
  unfoldable pub client_ip : String → String
  client_ip remote_addr = elim (net.split_host_port remote_addr) [
    | none ↦ remote_addr
    | some host ↦ host
  ]

  peer_trusted : List Prefix → Option Addr → Bool
  peer_trusted ps none = false
  peer_trusted ps (some a) = trusted a ps

  -- Whether X-Forwarded-For is consulted.
  unfoldable pub consults : String → List Prefix → Bool
  unfolding peer_trusted
  consults peer [] = false
  consults peer (p ∷ ps) = peer_trusted (p ∷ ps) (net.parse_addr peer)

  unfoldable pub resolve_client_ip : String → List String → List Prefix → String
  unfolding answer
  resolve_client_ip remote_addr forwarded_for ps =
      let peer = client_ip remote_addr in
      if consults peer ps then answer peer (walk peer ps (hops forwarded_for)) else peer
