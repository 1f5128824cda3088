-- ===== src/Packet/Key.antt =====
-- What a packet is matched by, as one value, and the match and the hash in terms of it.
use dns_collector.Prelude.{ℕ, ◌≡◌, ◌↔◌, ap, true, List, take, bytes_eq_iff, arith}
use dns_collector.Packet.{
  SockAddr, Packet, sockaddr_addr, sockaddr_addrlen, client_sockaddr, server_sockaddr,
}
use dns_collector.Packet.Match.{sockaddr_match, primary_match}

-- The address family, the transport, the DNS id, and both ends of the exchange, seen from the
-- client.
pub record Key : Type 0 where
  pub family : ℕ
  pub protocol : ℕ
  pub id : ℕ
  pub client_port : ℕ
  pub client_addr : List ℕ
  pub server_port : ℕ
  pub server_addr : List ℕ

unfoldable pub key : Packet → Key
unfolding client_sockaddr server_sockaddr
key p = record {
  family = p.src_addr.family;
  protocol = p.net_protocol;
  id = p.dns_id;
  client_port = (client_sockaddr p).port;
  client_addr = take (sockaddr_addrlen p.src_addr) (sockaddr_addr (client_sockaddr p));
  server_port = (server_sockaddr p).port;
  server_addr = take (sockaddr_addrlen p.src_addr) (sockaddr_addr (server_sockaddr p));
}

addrlen_congr : (a b : SockAddr) → a.family ≡ b.family → sockaddr_addrlen a ≡ sockaddr_addrlen b
unfolding sockaddr_addrlen
addrlen_congr a b e = rw e

module _ (p q : Packet) where
  cmp :
      (a b : SockAddr)
      → (sockaddr_match (sockaddr_addrlen p.src_addr) a b ≡ true) ↔ (
          (a.port ≡ b.port)
          × (take (sockaddr_addrlen p.src_addr) (sockaddr_addr a)
              ≡ take (sockaddr_addrlen p.src_addr) (sockaddr_addr b)))
  unfolding sockaddr_match
  cmp a b =
      let len = sockaddr_addrlen p.src_addr in
      let eq = bytes_eq_iff (take len (sockaddr_addr a)) (take len (sockaddr_addr b)) in
      (ground (arith, eq), ground (arith, eq))

  -- Two packets match exactly if their keys are equal: requests and responses alike, in the same
  -- direction or in opposite ones.
  pub primary_match_iff : (primary_match p q ≡ true) ↔ (key p ≡ key q)
  unfolding primary_match key
  primary_match_iff = (
    ground (
      arith,
      addrlen_congr p.src_addr q.src_addr,
      cmp p.src_addr q.src_addr,
      cmp p.dst_addr q.dst_addr,
      cmp p.src_addr q.dst_addr,
      cmp p.dst_addr q.src_addr,
    ),
    λ e. ground (
      arith,
      ap (λ (k : Key). k.family) e,
      ap (λ (k : Key). k.protocol) e,
      ap (λ (k : Key). k.id) e,
      ap (λ (k : Key). k.client_port) e,
      ap (λ (k : Key). k.client_addr) e,
      ap (λ (k : Key). k.server_port) e,
      ap (λ (k : Key). k.server_addr) e,
      addrlen_congr p.src_addr q.src_addr,
      cmp p.src_addr q.src_addr,
      cmp p.dst_addr q.dst_addr,
      cmp p.src_addr q.dst_addr,
      cmp p.dst_addr q.src_addr,
    ),
  )
