-- ===== src/Packet/Create.antt =====
-- src/packet.c: a packet is made of what libtrace has captured. libtrace's and libknot's answers are
-- parameters; `none` is a read outside of the captured memory, a read through NULL, or `die`.
pub mod Spec
pub mod Copied
pub mod Checks
pub mod Accepted
pub mod Returns
pub mod Total
use dns_collector.Prelude.{
  ℕ, ◌+◌, ◌*◌, ◌-◌, ◌^◌, ◌%◌, Bool, true, false, not, ◌&&◌, ◌||◌, Option, none, some, List, [], ◌∷◌,
  ◌==◌, if◌then◌else◌, ltb, leb, length, take, drop, replicate, add64, assert, ◌>>=◌, ◌>>◌,
}
use dns_collector.Clock.{Timeval, time_from_timeval}
use dns_collector.Packet.{SockAddr, KnotPacket, PacketData, Packet, is_request}

-- A pointer into the capture, with the memory that can be read from there on, or NULL; and the number
-- of bytes that libtrace says are captured.
pub record Payload : Type 0 where
  pub pointer : Option (List ℕ)
  pub remaining : ℕ

-- `syn` and `fin` of `struct libtrace_tcp`
pub record TcpHeader : Type 0 where
  pub syn : Bool
  pub fin : Bool

-- What libtrace answers about a packet of a trace. The transport is the protocol and the number
-- of bytes captured from it on; the payload is given for each number of bytes captured.
pub record Capture : Type 0 where
  pub transport : Option (ℕ × ℕ)
  pub ip_ttl : Option ℕ
  pub ip6_hlim : Option ℕ
  pub tcp : Option TcpHeader
  pub udp_check : Option ℕ
  pub fragment_offset : ℕ
  pub fragment_more : ℕ
  pub payload_from_tcp : ℕ → Payload
  pub payload_from_udp : ℕ → Payload
  pub payload_from_icmp : ℕ → Payload
  pub payload_from_icmp6 : ℕ → Payload
  pub payload_length : ℕ
  pub timeval : Timeval
  pub source_address : Option SockAddr
  pub destination_address : Option SockAddr
  pub wire_length : ℕ

-- what a parser of libknot returns: the message as far as it is parsed, KNOT_ENOMEM, or another error
pub data KnotResult : Type 0 where
  knot_ok : KnotPacket → KnotResult
  knot_enomem knot_error : KnotResult

-- `knot_pkt_parse_question` of a new message with this wire, and `knot_pkt_parse` after that; and
-- the sizes of `dns_packet_t` and `knot_pkt_t`
pub record Knot : Type 0 where
  pub parse_question : List ℕ → KnotResult
  pub parse : List ℕ → KnotPacket → KnotResult
  pub sizeof_packet : ℕ
  pub sizeof_knot : ℕ

-- DNS_RET_DROP_NETWORK and so on
pub data DropReason : Type 0 where
  network fragmented transport_layer malformed : DropReason

-- what `dns_packet_create_from_libtrace` returns
pub data Created : Type 0 where
  created : Packet → Created
  refused : DropReason → Created

abbrev pub proto_icmp : ℕ
proto_icmp = 1

abbrev pub proto_tcp : ℕ
proto_tcp = 6

abbrev pub proto_udp : ℕ
proto_udp = 17

abbrev pub proto_icmp6 : ℕ
proto_icmp6 = 58

-- `a - b` on `uint32_t`
unfoldable pub sub32 : ℕ → ℕ → ℕ
sub32 a b = (a + 2 ^ 32 - b % 2 ^ 32) % 2 ^ 32

-- `ntohs` of the two bytes at the pointer
unfoldable pub read16 : List ℕ → Option ℕ
read16 (b ∷ c ∷ bytes) = some (b * 256 + c)
read16 (b ∷ []) = none
read16 [] = none

-- what the skipping of the protocol's header leads to
pub data Skipped : Type 0 where
  stopped : DropReason → Skipped
  data_at : Payload → Skipped

-- the length in front of a message over TCP
unfoldable pub skip_length : Capture → Payload → Option Skipped
unfolding read16 sub32
skip_length c p = do
  bytes ← p.pointer
  message_size ← read16 bytes
  if not (message_size + 2 == c.payload_length)
      then some (stopped transport_layer)
      else some
          (data_at (record { pointer = some (drop 2 bytes); remaining = sub32 p.remaining 2 }))

-- the branch of TCP
unfoldable pub skip_tcp : Capture → ℕ → Option Skipped
unfolding skip_length
skip_tcp c remaining = do
  tcp ← c.tcp
  let rest = skip_length c (c.payload_from_tcp remaining)
  if tcp.syn || tcp.fin
      then some (stopped transport_layer)
      else if ltb remaining 2
      then some (stopped network)
      else rest

-- the switch on the protocol
unfoldable pub skip_header : Capture → ℕ → ℕ → Option Skipped
unfolding skip_tcp
skip_header c proto remaining =
    if proto == proto_tcp
    then skip_tcp c remaining
    else if proto == proto_udp
    then some (data_at (c.payload_from_udp remaining))
    else if proto == proto_icmp
    then some (data_at (c.payload_from_icmp remaining))
    else if proto == proto_icmp6
    then some (data_at (c.payload_from_icmp6 remaining))
    else some (stopped transport_layer)

-- the copy of the data in `dns_packet_create`
unfoldable pub copy_data : Payload → Option (List ℕ)
copy_data p = elim p.pointer [
  | none ↦ some (replicate p.remaining 0)
  | some bytes ↦ assert (leb p.remaining (length bytes)) >> some (take p.remaining bytes)
]

-- `net_ttl`: that of IPv6 counts if libtrace finds both headers
unfoldable pub ttl_of : Capture → ℕ
ttl_of c = elim c.ip6_hlim [ some hlim ↦ hlim | none ↦ elim c.ip_ttl [ some ttl ↦ ttl | none ↦ 0 ] ]

unfoldable pub udp_sum_of : Capture → ℕ
udp_sum_of c = elim c.udp_check [ some check ↦ check | none ↦ 0 ]

module _ (k : Knot) where
  -- the packet with its fields set, but for the ID, and what libknot has parsed
  unfoldable pub fill_packet :
      Capture → (address proto : ℕ) → List ℕ → (src dst : SockAddr) → KnotPacket → PacketData
  unfolding ttl_of udp_sum_of time_from_timeval
  fill_packet c address proto bytes src dst parsed = record {
    address = address;
    ts = time_from_timeval c.timeval;
    src_addr = src;
    dst_addr = dst;
    net_protocol = proto;
    net_size = c.wire_length;
    net_ttl = ttl_of c;
    net_udp_sum = udp_sum_of c;
    dns_id = 0;
    dns_data = bytes;
    dns_data_size = length bytes;
    dns_data_size_orig = c.payload_length;
    knot_packet = parsed;
    memory_size = add64 (add64 k.sizeof_packet (length bytes)) k.sizeof_knot;
  }

  -- the ID at the start of the data, after all checks
  unfoldable pub finish_packet : PacketData → Option Created
  unfolding read16
  finish_packet d = do
    id ← read16 d.dns_data
    some (created (record { body = record d { dns_id = id }; response = none }))

  -- the result of parsing a request in full
  unfoldable pub after_parse : PacketData → KnotResult → Option Created
  unfolding finish_packet
  after_parse d (knot_ok parsed) = finish_packet (record d { knot_packet = parsed })
  after_parse d knot_enomem = none
  after_parse d knot_error = some (refused malformed)

  unfoldable pub check_request : PacketData → Option Created
  unfolding after_parse is_request
  check_request d =
      if is_request (record { body = d; response = none })
      then after_parse d (k.parse d.dns_data d.knot_packet)
      else finish_packet d

  -- the result of parsing the question
  unfoldable pub after_question :
      Capture → (address proto : ℕ) → List ℕ → (src dst : SockAddr) → KnotResult → Option Created
  unfolding fill_packet check_request
  after_question c address proto bytes src dst (knot_ok parsed) =
      check_request (fill_packet c address proto bytes src dst parsed)
  after_question c address proto bytes src dst knot_enomem = some (refused malformed)
  after_question c address proto bytes src dst knot_error = some (refused malformed)

  -- the test for both addresses
  unfoldable pub check_addresses :
      Capture → (address proto : ℕ) → List ℕ → (src dst : Option SockAddr) → Option Created
  unfolding after_question
  check_addresses c address proto bytes (some src) (some dst) =
      after_question c address proto bytes src dst (k.parse_question bytes)
  check_addresses c address proto bytes none dst = some (refused network)
  check_addresses c address proto bytes (some src) none = some (refused network)

  unfoldable pub make_packet : Capture → (address proto : ℕ) → Payload → Option Created
  unfolding copy_data check_addresses
  make_packet c address proto p = do
    bytes ← copy_data p
    check_addresses c address proto bytes c.source_address c.destination_address

  -- with the data, if the header has been skipped
  unfoldable pub use_payload : Capture → (address proto : ℕ) → Skipped → Option Created
  unfolding make_packet
  use_payload c address proto (stopped d) = some (refused d)
  use_payload c address proto (data_at p) = make_packet c address proto p

  -- the test for a fragment, and what follows
  unfoldable pub from_transport : Capture → (address : ℕ) → Option (ℕ × ℕ) → Option Created
  unfolding skip_header use_payload
  from_transport c address none = some (refused network)
  from_transport c address (some (proto, remaining)) =
      if ltb 0 c.fragment_offset || not (c.fragment_more == 0)
      then some (refused fragmented)
      else skip_header c proto remaining >>= use_payload c address proto

  -- `dns_packet_create_from_libtrace`; `address` is where the packet is allocated
  unfoldable pub create_from_libtrace : Capture → (address : ℕ) → Option Created
  unfolding from_transport
  create_from_libtrace c address = from_transport c address c.transport
