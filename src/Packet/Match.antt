-- ===== src/Packet/Match.antt =====
-- src/packet.c: which packets belong together.
use dns_collector.Prelude.{
  ℕ, ◌==◌, Bool, true, false, not, ◌&&◌, ◌||◌, Option, none, some, List, if◌then◌else◌, memcmp_eq,
  assert, ◌>>◌,
}
use dns_collector.Packet.{
  SockAddr, Packet, sockaddr_addr, sockaddr_addrlen, is_request, is_response,
}

-- `==` of two truth values
abbrev pub same : Bool → Bool → Bool
same true b = b
same false b = not b

-- `a` of one packet against `b` of the other: the ports, and `len` bytes of the addresses
unfoldable pub sockaddr_match : ℕ → SockAddr → SockAddr → Bool
sockaddr_match len a b = a.port == b.port && memcmp_eq (sockaddr_addr a) (sockaddr_addr b) len

-- `dns_packet_primary_match`
unfoldable pub primary_match : Packet → Packet → Bool
primary_match p q =
    let len = sockaddr_addrlen p.src_addr in
    if not (p.src_addr.family == q.src_addr.family)
      || not (p.net_protocol == q.net_protocol)
      || not (p.dns_id == q.dns_id)
    then false
    else if same (not (is_request p)) (not (is_request q))
    then sockaddr_match len p.src_addr q.src_addr && sockaddr_match len p.dst_addr q.dst_addr
    else sockaddr_match len p.src_addr q.dst_addr && sockaddr_match len p.dst_addr q.src_addr

-- The comparison of two names that may be missing; `equal` is libknot's `knot_dname_is_equal`.
unfoldable pub dname_match : (List ℕ → List ℕ → Bool) → Option (List ℕ) → Option (List ℕ) → Bool
dname_match equal none none = true
dname_match equal (some r) (some q) = equal r q
dname_match equal _ _ = false

-- `dns_packet_qname_match`; `none` is a failed assertion
unfoldable pub qname_match : (List ℕ → List ℕ → Bool) → Packet → Packet → Option Bool
unfolding dname_match
qname_match equal request response = do
  assert (is_request request && is_response response)
  let res = response.knot_packet
  let req = request.knot_packet
  some (
      if res.qname_size == 1
      then true
      else if not (req.qname_size == res.qname_size)
      then false
      else dname_match equal res.qname req.qname)
