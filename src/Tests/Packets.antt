-- ===== src/Tests/Packets.antt =====
-- A request of 192.0.2.1 to 192.0.2.53 and the response to it.
use dns_collector.Prelude.{ℕ, refl, ◌≡◌, true, none, some, [], ◌∷◌, ◌↔◌}
use dns_collector.Packet.{
  SockAddr, af_inet, KnotPacket, PacketData, Packet, sockaddr_addr, sockaddr_addrlen, is_request,
  is_response,
}
use dns_collector.Packet.Match.{primary_match}
use dns_collector.Packet.HashValue.{primary_hash}
use dns_collector.Packet.Key.{key, primary_match_iff}
use dns_collector.Packet.SameHash.{primary_hash-eq_of_match}

abbrev pub client : SockAddr
client = record { family = af_inet; port = 40000; bytes = 192 ∷ 0 ∷ 2 ∷ 1 ∷ [] }

abbrev pub server : SockAddr
server = record { family = af_inet; port = 53; bytes = 192 ∷ 0 ∷ 2 ∷ 53 ∷ [] }

-- a message with the name "cz." or the like
abbrev pub message : (address ts qr : ℕ) → (src dst : SockAddr) → Packet
message address ts qr src dst =
    let parsed : KnotPacket = record {
      qr = qr;
      opcode = 0;
      rcode = 0;
      aa = 0;
      tc = 0;
      rd = 1;
      ra = qr;
      z = 0;
      ad = 0;
      cd = 0;
      ancount = qr;
      nscount = 0;
      arcount = 0;
      wire_id = 4660;
      qname_size = 4;
      qname = some (2 ∷ b'c' ∷ b'z' ∷ 0 ∷ []);
      qtype = 1;
      qclass = 1;
      opt_rr = none;
    } in
    let fields : PacketData = record {
      address = address;
      ts = ts;
      src_addr = src;
      dst_addr = dst;
      net_protocol = 17;
      net_size = 48;
      net_ttl = 64;
      net_udp_sum = 0;
      dns_id = 4660;
      dns_data = [];
      dns_data_size = 20;
      dns_data_size_orig = 20;
      knot_packet = parsed;
      memory_size = 200;
    } in
    record { body = fields; response = none }

abbrev pub request : Packet
request = message 1 5000 0 client server

abbrev pub response : Packet
response = message 2 6000 1 server client

pub response_matches : primary_match response request ≡ true
unfolding key is_request is_response sockaddr_addr sockaddr_addrlen
response_matches = (primary_match_iff response request).1 refl

primary_match_iff_example : (primary_match response request ≡ true) ↔ (key response ≡ key request)
primary_match_iff_example = primary_match_iff response request

primary_hash-eq_of_match_example : primary_hash response 1000 ≡ primary_hash request 1000
primary_hash-eq_of_match_example = primary_hash-eq_of_match response request 1000 response_matches
