-- ===== src/Packet/Create/Spec.antt =====
-- What a capture says of the message that it carries, apart from the order of the checks in
-- `dns_packet_create_from_libtrace`.
use dns_collector.Prelude.{
  ℕ, ◌+◌, ◌-◌, ◌*◌, ◌≤◌, ◌<◌, ◌^◌, ◌%◌, ◌≡◌, Option, true, false, not, none, some, List, ◌∷◌, ◌++◌,
  ◌⊎◌, replicate, ◌==◌, length,
}
use dns_collector.Packet.{SockAddr, Packet, KnotPacket}
use dns_collector.Packet.Create.{
  knot_ok, TcpHeader, proto_udp, proto_icmp, proto_icmp6, Capture, Knot, Payload, proto_tcp,
}

-- the number of hops that a packet may still make: that of the header of IPv6 if libtrace finds one,
-- else that of the header of IPv4, and 0 if there is neither
unfoldable pub hops : (ip_ttl ip6_hlim : Option ℕ) → ℕ
hops none none = 0
hops (some ttl) none = ttl
hops none (some hlim) = hlim
hops (some ttl) (some hlim) = hlim

-- the checksum of UDP, 0 without a UDP header
unfoldable pub checksum : Option ℕ → ℕ
checksum none = 0
checksum (some check) = check

-- The packet that is to be made, field by field: the times and sizes of the capture, its source and
-- destination, the message and its ID, what libknot has parsed, and the memory of all that.
unfoldable pub packet_of :
    Knot
    → Capture
    → (address proto : ℕ) → (wire : List ℕ) → (id : ℕ) → (src dst : SockAddr) → KnotPacket
    → Packet
unfolding hops checksum
packet_of k c address proto wire id src dst parsed = record {
  body = record {
    address = address;
    ts = c.timeval.tv_usec + 1000000 * c.timeval.tv_sec;
    src_addr = src;
    dst_addr = dst;
    net_protocol = proto;
    net_size = c.wire_length;
    net_ttl = hops c.ip_ttl c.ip6_hlim;
    net_udp_sum = checksum c.udp_check;
    dns_id = id;
    dns_data = wire;
    dns_data_size = length wire;
    dns_data_size_orig = c.payload_length;
    knot_packet = parsed;
    memory_size = (k.sizeof_packet + length wire + k.sizeof_knot) % 2 ^ 64;
  };
  response = none;
}

-- The message is as long as libtrace says that the payload is, and stands at the pointer; without a
-- pointer it is zeros.
abbrev pub Shows : Payload → List ℕ → Type 0
Shows p wire =
    ((p.pointer ≡ none) × (wire ≡ replicate p.remaining 0))
    ⊎ (behind : List ℕ) × (p.pointer ≡ some (wire ++ behind)) × (length wire ≡ p.remaining)

-- The message starts with its ID, the higher byte first.
abbrev pub StartsWith : ℕ → List ℕ → Type 0
StartsWith id wire =
    (hi : ℕ) × (lo : ℕ) × (rest : List ℕ) × (wire ≡ hi ∷ lo ∷ rest) × (id ≡ hi * 256 + lo)

-- Over TCP the message stands behind its length.
pub record IsSegment (c : Capture) (captured : ℕ) (wire : List ℕ) : Type 0 where
  pub hi : ℕ
  pub lo : ℕ
  pub bytes : List ℕ
  pub remaining : ℕ
  pub header : TcpHeader
  pub has_header : c.tcp ≡ some header
  pub no_syn : header.syn ≡ false
  pub no_fin : header.fin ≡ false
  pub enough : 2 ≤ captured
  pub payload :
      c.payload_from_tcp captured
      ≡ record { pointer = some (hi ∷ lo ∷ bytes); remaining = remaining }
  pub announced : hi * 256 + lo + 2 ≡ c.payload_length
  pub not_cut : 2 ≤ remaining
  pub copied : Shows (record { pointer = some bytes; remaining = remaining - 2 }) wire

-- the transport that carries the message, and the message's bytes
pub data Carries (c : Capture) : ℕ → List ℕ → Type 0 where
  over_tcp :
      (captured : ℕ) (wire : List ℕ)
      → c.transport ≡ some (proto_tcp, captured)
      → IsSegment c captured wire
      → Carries c proto_tcp wire
  over_udp :
      (captured : ℕ) (wire : List ℕ)
      → c.transport ≡ some (proto_udp, captured)
      → Shows (c.payload_from_udp captured) wire
      → Carries c proto_udp wire
  in_icmp :
      (captured : ℕ) (wire : List ℕ)
      → c.transport ≡ some (proto_icmp, captured)
      → Shows (c.payload_from_icmp captured) wire
      → Carries c proto_icmp wire
  in_icmp6 :
      (captured : ℕ) (wire : List ℕ)
      → c.transport ≡ some (proto_icmp6, captured)
      → Shows (c.payload_from_icmp6 captured) wire
      → Carries c proto_icmp6 wire

module _ (k : Knot) where
  -- The question is well-formed, and so is all of the message if it is a request.
  pub data Parses (wire : List ℕ) (asked : KnotPacket) : KnotPacket → Type 0 where
    response :
        k.parse_question wire ≡ knot_ok asked → not (asked.qr == 0) ≡ true → Parses wire asked asked
    request :
        (parsed : KnotPacket)
        → k.parse_question wire ≡ knot_ok asked
        → not (asked.qr == 0) ≡ false
        → k.parse wire asked ≡ knot_ok parsed
        → Parses wire asked parsed

  -- The packet `p` is what the capture says.
  pub record Describes (c : Capture) (address : ℕ) (p : Packet) : Type 0 where
    pub proto : ℕ
    pub wire : List ℕ
    pub asked : KnotPacket
    pub parsed : KnotPacket
    pub id : ℕ
    pub src : SockAddr
    pub dst : SockAddr
    pub whole : (c.fragment_offset ≡ 0) × (c.fragment_more ≡ 0)
    pub carries : Carries c proto wire
    pub from : c.source_address ≡ some src
    pub to : c.destination_address ≡ some dst
    pub parses : Parses wire asked parsed
    pub starts : StartsWith id wire
    pub fields : p ≡ packet_of k c address proto wire id src dst parsed

-- Captured packets are shorter than 4 GiB.
pub record IsSmall (c : Capture) : Type 0 where
  pub memory :
      (captured : ℕ) (bytes : List ℕ)
      → (c.payload_from_tcp captured).pointer ≡ some bytes
      → length bytes + 2 < 2 ^ 32
  pub size : (captured : ℕ) → (c.payload_from_tcp captured).remaining < 2 ^ 32
