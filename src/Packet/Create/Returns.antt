-- ===== src/Packet/Create/Returns.antt =====
-- When `dns_packet_create_from_libtrace` returns, and that it makes a packet where it can.
use dns_collector.Prelude.{
  ap₂, ◌↔◌, ℕ, ◌+◌, ◌-◌, ◌*◌, ◌≤◌, ◌<◌, ◌^◌, ◌≡◌, refl, sym, ◌∙◌, ap, true, false, not, ◌||◌, none,
  some, List, ◌∷◌, ◌==◌, ltb, arith, >>=-some,
}
use dns_collector.Packet.{SockAddr, Packet, PacketData, KnotPacket, is_request, is_response}
use dns_collector.Packet.Create.{
  Payload, TcpHeader, fill_packet, Capture, Knot, created, copy_data, read16, finish_packet,
  after_parse, check_request, after_question, check_addresses, make_packet, from_transport, Skipped,
  data_at, skip_length, skip_tcp, use_payload, skip_header, create_from_libtrace,
}
use dns_collector.Packet.Create.Copied.{Shows-copy_data, StartsWith-read16}
use dns_collector.Packet.Create.Spec.{
  Carries, over_tcp, over_udp, in_icmp, in_icmp6, packet_of, Parses, response, request, Describes,
  IsSmall,
}
use dns_collector.Packet.Create.Checks.{fill_packet-packet_of}
use dns_collector.Packet.Create.Accepted.{sub32-enough, created-Describes}

skip_length-on :
    (c : Capture) (hi lo : ℕ) (bytes : List ℕ) (remaining : ℕ)
    → hi * 256 + lo + 2 ≡ c.payload_length
    → 2 ≤ remaining
    → remaining < 2 ^ 32
    → skip_length c (record { pointer = some (hi ∷ lo ∷ bytes); remaining = remaining })
      ≡ some (data_at (record { pointer = some bytes; remaining = remaining - 2 }))
unfolding skip_length read16
skip_length-on c hi lo bytes remaining announced not_cut below =
    let same : (hi * 256 + lo + 2 == c.payload_length) ≡ true = ground (arith, announced) in
    rw (same, sub32-enough remaining not_cut below) refl

pub skip_tcp-on :
    (c : Capture) (captured : ℕ) (header : TcpHeader) (s : Skipped)
    → c.tcp ≡ some header
    → header.syn ≡ false
    → header.fin ≡ false
    → 2 ≤ captured
    → skip_length c (c.payload_from_tcp captured) ≡ some s
    → skip_tcp c captured ≡ some s
unfolding skip_tcp
skip_tcp-on c captured header s has syn fin enough ran =
    let long : ltb captured 2 ≡ false = ground (arith, enough) in
    >>=-some has _ ∙ rw (syn, fin, long) ran

-- the message at the payload, where the headers have been skipped
Carries-skip_header :
    (c : Capture) (proto : ℕ) (wire : List ℕ)
    → IsSmall c
    → Carries c proto wire
    → (captured : ℕ) × (d : Payload) × (c.transport ≡ some (proto, captured))
      × (skip_header c proto captured ≡ some (data_at d))
      × (copy_data d ≡ some wire)
unfolding skip_header
Carries-skip_header c _ _ small (over_udp captured wire t copied) =
    (captured, c.payload_from_udp captured, t, refl, Shows-copy_data _ wire copied)
Carries-skip_header c _ _ small (in_icmp captured wire t copied) =
    (captured, c.payload_from_icmp captured, t, refl, Shows-copy_data _ wire copied)
Carries-skip_header c _ _ small (in_icmp6 captured wire t copied) =
    (captured, c.payload_from_icmp6 captured, t, refl, Shows-copy_data _ wire copied)
Carries-skip_header c _ _ small (over_tcp captured wire t s) =
    let d : Payload = record { pointer = some s.bytes; remaining = s.remaining - 2 } in
    let below : s.remaining < 2 ^ 32 =
      omega (arith, small.size captured, ap (λ (x : Payload). x.remaining) s.payload) in
    (
      captured,
      d,
      t,
      skip_tcp-on c captured s.header (data_at d) s.has_header s.no_syn s.no_fin s.enough (
          ap (skip_length c) s.payload
          ∙ skip_length-on c s.hi s.lo s.bytes s.remaining s.announced s.not_cut below),
      Shows-copy_data d wire s.copied,
    )

module _ (k : Knot) (c : Capture) (address : ℕ) where
  finish_packet-runs :
      (d : PacketData) (id : ℕ)
      → read16 d.dns_data ≡ some id
      → finish_packet k d
        ≡ some (created (record { body = record d { dns_id = id }; response = none }))
  unfolding finish_packet
  finish_packet-runs d id at_start = >>=-some at_start _

  Parses-after_question :
      (proto id : ℕ) (wire : List ℕ) (src dst : SockAddr) (asked parsed : KnotPacket)
      → Parses k wire asked parsed
      → read16 wire ≡ some id
      → after_question k c address proto wire src dst (k.parse_question wire)
        ≡ some (created (packet_of k c address proto wire id src dst parsed))
  unfolding after_question check_request fill_packet is_request is_response after_parse
  Parses-after_question proto id wire src dst asked _ (response question resp) at_start =
      let d = fill_packet k c address proto wire src dst asked in
      ap (after_question k c address proto wire src dst) question
      ∙ rw resp (finish_packet-runs d id at_start)
      ∙ ap (λ p. some (created p)) (fill_packet-packet_of k c address proto wire id src dst asked)
  Parses-after_question proto id wire src dst asked _ (request parsed question req full) at_start =
      let d = fill_packet k c address proto wire src dst parsed in
      ap (after_question k c address proto wire src dst) question
      ∙ rw req (
          ap (after_parse k (fill_packet k c address proto wire src dst asked)) full
          ∙ finish_packet-runs d id at_start)
      ∙ ap (λ p. some (created p)) (fill_packet-packet_of k c address proto wire id src dst parsed)

  Describes-created :
      (p : Packet)
      → IsSmall c
      → Describes k c address p
      → create_from_libtrace k c address ≡ some (created p)
  unfolding create_from_libtrace from_transport use_payload make_packet check_addresses
  Describes-created p small d =
      let (captured, at_payload, t, skipped, copied) =
        Carries-skip_header c d.proto d.wire small d.carries in
      let unbroken : (ltb 0 c.fragment_offset || not (c.fragment_more == 0)) ≡ false =
        ground (arith, d.whole.0, d.whole.1) in
      ap (from_transport k c address) t
      ∙ rw unbroken (
          >>=-some skipped _
          ∙ >>=-some copied _
          ∙ ap₂ (check_addresses k c address d.proto d.wire) d.from d.to
          ∙ Parses-after_question d.proto d.id d.wire d.src d.dst d.asked d.parsed d.parses
              (StartsWith-read16 d.wire d.id d.starts)
          ∙ ap (λ x. some (created x)) (sym d.fields))

  -- A packet is made of a capture, shorter than 4 GiB, if and only if the capture is not a fragment,
  -- has both addresses, and carries the message over UDP, in ICMP, or over TCP in a segment that is
  -- neither SYN nor FIN and holds exactly the one message that its length announces, and the question
  -- of the message parses, and all of it does if it is a request. The packet is then the one that
  -- packet_of writes out: its message with its length and the ID at its start, the capture's source
  -- and destination as source and destination, its time in microseconds, its length on the wire and
  -- of the payload, the hop limit of IPv6 before the TTL of IPv4, the checksum of UDP, and what
  -- libknot has parsed.
  pub created_iff :
      (p : Packet)
      → IsSmall c
      → (create_from_libtrace k c address ≡ some (created p)) ↔ Describes k c address p
  created_iff p small = (created-Describes k c address p small, Describes-created p small)
