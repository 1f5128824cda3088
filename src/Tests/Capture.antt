-- ===== src/Tests/Capture.antt =====
-- A query over UDP and a segment of TCP that has been cut, as libtrace captures them.
use mathlib.Core.Option.{some_inj}
use dns_collector.Prelude.{
  ℕ, ◌≡◌, refl, ap, false, none, some, List, [], ◌∷◌, ◌↔◌, length, ltb, if◌then◌else◌, arith,
  Bool-cases, inl, inr, ◌≤◌,
}
use dns_collector.Packet.{Packet, KnotPacket}
use dns_collector.Packet.Create.{
  Payload, TcpHeader, Capture, knot_ok, knot_error, Knot, Created, created, proto_udp, proto_tcp,
  create_from_libtrace,
}
use dns_collector.Packet.Create.Spec.{Describes, IsSmall}
use dns_collector.Packet.Create.Returns.{created_iff}
use dns_collector.Packet.Create.Total.{
  IsComplete, create_from_libtrace-returns, create_from_libtrace-cut,
}
use dns_collector.Tests.Packets.{client, server, request}

abbrev header_bytes : List ℕ
header_bytes = 0x12 ∷ 0x34 ∷ 1 ∷ 0 ∷ 0 ∷ 1 ∷ 0 ∷ 0 ∷ 0 ∷ 0 ∷ 0 ∷ 0 ∷ []

abbrev no_payload : Payload
no_payload = record { pointer = none; remaining = 0 }

abbrev udp_payload : Payload
udp_payload = record { pointer = some header_bytes; remaining = 12 }

-- the length of the message, and the message
abbrev tcp_payload : Payload
tcp_payload = record { pointer = some (0 ∷ 12 ∷ header_bytes); remaining = 14 }

-- one byte is captured of a payload of twelve
abbrev cut_payload : Payload
cut_payload = record { pointer = some (0 ∷ 10 ∷ 7 ∷ []); remaining = 1 }

abbrev udp_query : Capture
udp_query = record {
  transport = some (proto_udp, 20);
  ip_ttl = some 64;
  ip6_hlim = none;
  tcp = none;
  udp_check = some 0;
  fragment_offset = 0;
  fragment_more = 0;
  payload_from_tcp = λ n. no_payload;
  payload_from_udp = λ n. udp_payload;
  payload_from_icmp = λ n. no_payload;
  payload_from_icmp6 = λ n. no_payload;
  payload_length = 12;
  timeval = record { tv_sec = 1; tv_usec = 500 };
  source_address = some client;
  destination_address = some server;
  wire_length = 54;
}

abbrev acknowledges : TcpHeader
acknowledges = record { syn = false; fin = false }

abbrev tcp_query : Capture
tcp_query = record udp_query {
  transport = some (proto_tcp, 34);
  tcp = some acknowledges;
  udp_check = none;
  payload_from_tcp = λ n. tcp_payload;
  payload_length = 14;
}

abbrev cut_segment : Capture
cut_segment = record udp_query {
  transport = some (proto_tcp, 21);
  tcp = some acknowledges;
  udp_check = none;
  payload_from_tcp = λ n. cut_payload;
}

abbrev knot : Knot
knot = record {
  parse_question = λ wire. if ltb (length wire) 12 then knot_error else knot_ok request.knot_packet;
  parse = λ wire asked. knot_ok asked;
  sizeof_packet = 200;
  sizeof_knot = 100;
}

abbrev query_packet : Packet
query_packet = record {
  body = record {
    address = 7;
    ts = 1000500;
    src_addr = client;
    dst_addr = server;
    net_protocol = 17;
    net_size = 54;
    net_ttl = 64;
    net_udp_sum = 0;
    dns_id = 0x1234;
    dns_data = header_bytes;
    dns_data_size = 12;
    dns_data_size_orig = 12;
    knot_packet = request.knot_packet;
    memory_size = 312;
  };
  response = none;
}

udp_query-IsSmall : IsSmall udp_query
udp_query-IsSmall = record { memory = λ n bytes e. cc; size = λ n. omega arith }

created_iff_example :
    (create_from_libtrace knot udp_query 7 ≡ some (created query_packet))
    ↔ Describes knot udp_query 7 query_packet
created_iff_example = created_iff knot udp_query 7 query_packet udp_query-IsSmall

-- a question parses in twelve bytes or more
knot-has_id :
    (wire : List ℕ) (asked : KnotPacket)
    → knot.parse_question wire ≡ knot_ok asked
    → 2 ≤ length wire
knot-has_id wire asked e = elim (Bool-cases (ltb (length wire) 12)) [
  | inl short ↦ let away = rw short at e in cc
  | inr long ↦ ground (arith, long)
]

tcp_query-IsComplete : IsComplete knot tcp_query
tcp_query-IsComplete = record {
  udp_readable = λ n bytes e. omega (arith, ap length (some_inj.0 e));
  icmp_readable = λ n bytes e. cc;
  icmp6_readable = λ n bytes e. cc;
  has_header = λ n t. (acknowledges, refl);
  segment = λ n header t has on long.
      (0 ∷ 12 ∷ header_bytes, 14, refl, omega arith, omega arith, omega arith);
  has_id = knot-has_id;
  has_memory = λ wire asked e. cc;
}

create_from_libtrace-returns_example :
    (r : Created) × (create_from_libtrace knot tcp_query 7 ≡ some r)
create_from_libtrace-returns_example =
    create_from_libtrace-returns knot tcp_query tcp_query-IsComplete 7

create_from_libtrace-cut_example : create_from_libtrace knot cut_segment 7 ≡ none
create_from_libtrace-cut_example =
    create_from_libtrace-cut knot cut_segment 7 21 acknowledges 0 10 (7 ∷ []) 1 refl (refl, refl)
      refl refl refl (omega arith) refl (omega arith) refl (omega arith)
