-- ===== src/Api/ClientIp/Unspoofed.antt =====
-- internal/api/clientip.go, and the entries that a client itself puts in X-Forwarded-For.
use yaadegar.Base.{String, true, false, ◌≡◌, refl, List, [], ◌∷◌, ◌++◌, some}
use yaadegar.Base.Table.{All}
use yaadegar.Api.ClientIp.{
  Net, Walk, trusted, hops, visit, pass, walk, client_ip, consults, resolve_client_ip,
}

module _ {Addr Prefix : Type 0} (net : Net Addr Prefix) where
  -- The hop is the address of a configured proxy.
  abbrev pub ProxyHop : List Prefix → String → Type 0
  ProxyHop ps hop = (a : Addr) × (net.parse_addr hop ≡ some a) × (trusted net a ps ≡ true)

  visit-trusted :
      (peer : String) (ps : List Prefix) (a : Addr)
      → trusted net a ps ≡ true
      → visit net peer ps (some a) ≡ Walk.leftmost (net.addr_string (net.unmap a))
  unfolding visit
  visit-trusted peer ps a h = rw h refl

  visit-untrusted :
      (peer : String) (ps : List Prefix) (a : Addr)
      → trusted net a ps ≡ false
      → visit net peer ps (some a) ≡ Walk.returned (net.addr_string (net.unmap a))
  unfolding visit
  visit-untrusted peer ps a h = rw h refl

  -- The loop passes all proxies.
  walk-proxies :
      (peer : String) (ps : List Prefix) (after : List String)
      → All (ProxyHop ps) after
      → (ip : String) × (walk net peer ps after ≡ Walk.leftmost ip)
  unfolding walk pass
  walk-proxies peer ps [] h = ("", refl)
  walk-proxies peer ps (hop ∷ after) ((a, parsed, known), rest) =
      let (ip, passed) = walk-proxies peer ps after rest in
      (net.addr_string (net.unmap a), rw (passed, parsed) (visit-trusted peer ps a known))

  -- It stops at the first hop that is none.
  walk-client :
      (peer : String) (ps : List Prefix) (client : String) (a : Addr) (after before : List String)
      → net.parse_addr client ≡ some a
      → trusted net a ps ≡ false
      → All (ProxyHop ps) after
      → walk net peer ps (before ++ (client ∷ after))
        ≡ Walk.returned (net.addr_string (net.unmap a))
  unfolding walk pass
  walk-client peer ps client a after [] parsed unknown passed =
      let (ip, left) = walk-proxies peer ps after passed in
      rw (left, parsed) (visit-untrusted peer ps a unknown)
  walk-client peer ps client a after (hop ∷ before) parsed unknown passed =
      rw (walk-client peer ps client a after before parsed unknown passed) refl

  -- A client that reaches the server through trusted proxies is known by the address that the outermost
  -- of them saw, whatever entries the client itself put in X-Forwarded-For before. The condition is
  -- that this address is not one of a proxy.
  pub resolve_client_ip-unspoofed :
      (remote_addr : String) (forwarded_for : List String) (ps : List Prefix) (forged : List String)
      (client : String) (a : Addr) (passed : List String)
      → consults net (client_ip net remote_addr) ps ≡ true
      → hops net forwarded_for ≡ forged ++ (client ∷ passed)
      → net.parse_addr client ≡ some a
      → trusted net a ps ≡ false
      → All (ProxyHop ps) passed
      → resolve_client_ip net remote_addr forwarded_for ps ≡ net.addr_string (net.unmap a)
  unfolding resolve_client_ip
  resolve_client_ip-unspoofed remote_addr forwarded_for ps forged client a passed peer line parsed
        unknown known =
      rw
        (
          peer,
          line,
          walk-client (client_ip net remote_addr) ps client a passed forged parsed unknown known,
        )
        refl
