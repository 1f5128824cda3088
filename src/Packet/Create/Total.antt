-- ===== src/Packet/Create/Total.antt =====
-- When `dns_packet_create_from_libtrace` comes to an end, and when it reads outside of the capture.
use mathlib.Core.Option.{some_inj}
use dns_collector.Prelude.{
  replicate, ℕ, ◌+◌, ◌*◌, ◌≤◌, ◌<◌, ◌^◌, ◌≡◌, ◌≢◌, refl, ◌∙◌, ap, subst, true, false, not, ◌||◌,
  Option, none, some, List, [], ◌∷◌, ◌==◌, ltb, leb, length, take, arith, inl, inr, Bool-cases,
  ◌>>=◌, >>=-some,
}
use dns_collector.Packet.{SockAddr, PacketData, KnotPacket, is_request}
use dns_collector.Packet.Create.{
  sub32, network, fragmented, transport_layer, malformed, Payload, KnotResult, knot_ok, knot_enomem,
  knot_error, TcpHeader, proto_udp, proto_icmp, proto_icmp6, fill_packet, Capture, Knot, Created,
  refused, copy_data, read16, finish_packet, after_parse, check_request, after_question,
  check_addresses, make_packet, from_transport, Skipped, stopped, data_at, skip_length, skip_tcp,
  use_payload, skip_header, create_from_libtrace, proto_tcp,
}
use dns_collector.Packet.Create.Accepted.{sub32-enough, sub32-cut, data_at_inj}
use dns_collector.Packet.Create.Returns.{skip_tcp-on}

-- The data can be copied: there are as many bytes as libtrace says, or there is no pointer.
abbrev IsReadable : Payload → Type 0
IsReadable p = (bytes : List ℕ) → p.pointer ≡ some bytes → p.remaining ≤ length bytes

-- What libtrace and libknot are relied on for: the data of a payload can be read, as many bytes as
-- libtrace says are captured; a TCP packet has its header; a message whose question parses is not
-- shorter than its ID; and memory does not run out. And what the code takes for granted: behind the
-- header of a TCP segment that is neither SYN nor FIN at least two bytes are captured. A segment
-- without, such as a bare acknowledgement, is not complete: the code reads two bytes there anyway.
pub record IsComplete (k : Knot) (c : Capture) : Type 0 where
  pub udp_readable : (n : ℕ) → IsReadable (c.payload_from_udp n)
  pub icmp_readable : (n : ℕ) → IsReadable (c.payload_from_icmp n)
  pub icmp6_readable : (n : ℕ) → IsReadable (c.payload_from_icmp6 n)
  pub has_header :
      (n : ℕ) → c.transport ≡ some (proto_tcp, n) → (header : TcpHeader) × (c.tcp ≡ some header)
  pub segment :
      (n : ℕ) (header : TcpHeader)
      → c.transport ≡ some (proto_tcp, n)
      → c.tcp ≡ some header
      → (header.syn || header.fin) ≡ false
      → 2 ≤ n
      → (bytes : List ℕ) × (remaining : ℕ) × (c.payload_from_tcp n
          ≡ record { pointer = some bytes; remaining = remaining })
        × (2 ≤ remaining)
        × (remaining ≤ length bytes)
        × (remaining < 2 ^ 32)
  pub has_id :
      (wire : List ℕ) (asked : KnotPacket) → k.parse_question wire ≡ knot_ok asked → 2 ≤ length wire
  pub has_memory : (wire : List ℕ) (asked : KnotPacket) → k.parse wire asked ≢ knot_enomem

copy_data-runs :
    (p : Payload)
    → (o : Option (List ℕ)) → p.pointer ≡ o
    → IsReadable p
    → (wire : List ℕ) × (copy_data p ≡ some wire)
unfolding copy_data
copy_data-runs p none e readable = (replicate p.remaining 0, rw e refl)
copy_data-runs p (some bytes) e readable =
    let fits : leb p.remaining (length bytes) ≡ true = ground (arith, readable bytes e) in
    (take p.remaining bytes, rw e (rw fits refl))

read16-runs : (wire : List ℕ) → 2 ≤ length wire → (id : ℕ) × (read16 wire ≡ some id)
unfolding read16
read16-runs [] h = absurd (omega (arith, h))
read16-runs (b ∷ []) h = absurd (omega (arith, h))
read16-runs (b ∷ c ∷ bytes) h = (b * 256 + c, refl)

-- the skipping of headers ends, with data that can be copied
abbrev Skips : Option Skipped → Type 0
Skips o = (s : Skipped) × (o ≡ some s) × ((d : Payload) → s ≡ data_at d → IsReadable d)

skip_length-stops :
    (c : Capture) (hi lo : ℕ) (bytes : List ℕ) (remaining : ℕ)
    → (hi * 256 + lo + 2 == c.payload_length) ≡ false
    → skip_length c (record { pointer = some (hi ∷ lo ∷ bytes); remaining = remaining })
      ≡ some (stopped transport_layer)
unfolding skip_length read16
skip_length-stops c hi lo bytes remaining other = rw other refl

skip_length-data :
    (c : Capture) (hi lo : ℕ) (bytes : List ℕ) (remaining : ℕ)
    → (hi * 256 + lo + 2 == c.payload_length) ≡ true
    → skip_length c (record { pointer = some (hi ∷ lo ∷ bytes); remaining = remaining })
      ≡ some (data_at (record { pointer = some bytes; remaining = sub32 remaining 2 }))
unfolding skip_length read16
skip_length-data c hi lo bytes remaining same = rw same refl

skip_length-Skips :
    (c : Capture) (bytes : List ℕ) (remaining : ℕ)
    → 2 ≤ remaining
    → remaining ≤ length bytes
    → remaining < 2 ^ 32
    → Skips (skip_length c (record { pointer = some bytes; remaining = remaining }))
skip_length-Skips c [] remaining enough fits below = absurd (omega (arith, enough, fits))
skip_length-Skips c (hi ∷ []) remaining enough fits below = absurd (omega (arith, enough, fits))
skip_length-Skips c (hi ∷ lo ∷ bytes) remaining enough fits below =
    elim (Bool-cases (hi * 256 + lo + 2 == c.payload_length)) [
      | inr other ↦
          (stopped transport_layer, skip_length-stops c hi lo bytes remaining other, λ d e. cc)
      | inl same ↦
          let rest : Payload = record { pointer = some bytes; remaining = sub32 remaining 2 } in
          let less = sub32-enough remaining enough below in
          (
            data_at rest,
            skip_length-data c hi lo bytes remaining same,
            λ d e xs at_xs.
                let is : rest ≡ d = data_at_inj rest d e in
                let same_size : sub32 remaining 2 ≡ d.remaining =
                  ap (λ (x : Payload). x.remaining) is in
                let same_bytes : bytes ≡ xs =
                  some_inj.0 (ap (λ (x : Payload). x.pointer) is ∙ at_xs) in
                omega (arith, same_size, less, fits, ap length same_bytes),
          )
    ]

module _ (k : Knot) (c : Capture) (ok : IsComplete k c) where
  skip_tcp-Skips : (n : ℕ) → c.transport ≡ some (proto_tcp, n) → Skips (skip_tcp c n)
  unfolding skip_tcp
  skip_tcp-Skips n t =
      let (header, has) = ok.has_header n t in
      elim (Bool-cases (header.syn || header.fin)) [
        | inl stop ↦ (stopped transport_layer, >>=-some has _ ∙ rw stop refl, λ d e. cc)
        | inr on ↦ elim (Bool-cases (ltb n 2)) [
          | inl short ↦ (stopped network, >>=-some has _ ∙ rw (on, short) refl, λ d e. cc)
          | inr long ↦
              let (bytes, remaining, payload, enough, fits, below) =
                ok.segment n header t has on (ground (arith, long)) in
              let (s, ran, readable) = skip_length-Skips c bytes remaining enough fits below in
              (s, >>=-some has _ ∙ rw (on, long) (ap (skip_length c) payload ∙ ran), readable)
        ]
      ]

  at_once : (p : Payload) → IsReadable p → Skips (some (data_at p))
  at_once p readable = (data_at p, refl, λ d e. subst IsReadable (data_at_inj p d e) readable)

  skip_header-Skips : (proto n : ℕ) → c.transport ≡ some (proto, n) → Skips (skip_header c proto n)
  unfolding skip_header
  skip_header-Skips proto n t = elim (Bool-cases (proto == proto_tcp)) [
    | inl tcp ↦
        let is : proto ≡ proto_tcp = ground (arith, tcp) in
        rw tcp (skip_tcp-Skips n (t ∙ ap (λ x. some (x, n)) is))
    | inr a ↦ elim (Bool-cases (proto == proto_udp)) [
      | inl udp ↦ rw (a, udp) (at_once (c.payload_from_udp n) (ok.udp_readable n))
      | inr b ↦ elim (Bool-cases (proto == proto_icmp)) [
        | inl icmp ↦ rw (a, b, icmp) (at_once (c.payload_from_icmp n) (ok.icmp_readable n))
        | inr d ↦ elim (Bool-cases (proto == proto_icmp6)) [
          | inl icmp6 ↦ rw (a, b, d, icmp6) (at_once (c.payload_from_icmp6 n) (ok.icmp6_readable n))
          | inr e ↦ rw (a, b, d, e) (stopped transport_layer, refl, λ d e. cc)
        ]
      ]
    ]
  ]

  abbrev Comes : Option Created → Type 0
  Comes o = (r : Created) × (o ≡ some r)

  finish_packet-Comes : (d : PacketData) → 2 ≤ length d.dns_data → Comes (finish_packet k d)
  unfolding finish_packet
  finish_packet-Comes d h =
      let (id, at_start) = read16-runs d.dns_data h in (_, >>=-some at_start _)

  after_parse-Comes :
      (d : PacketData) (r : KnotResult)
      → r ≢ knot_enomem
      → 2 ≤ length d.dns_data
      → Comes (after_parse k d r)
  unfolding after_parse
  after_parse-Comes d (knot_ok parsed) memory h =
      finish_packet-Comes (record d { knot_packet = parsed }) h
  after_parse-Comes d knot_enomem memory h = absurd (memory refl)
  after_parse-Comes d knot_error memory h = (refused malformed, refl)

  check_request-Comes :
      (d : PacketData)
      → k.parse d.dns_data d.knot_packet ≢ knot_enomem
      → 2 ≤ length d.dns_data
      → Comes (check_request k d)
  unfolding check_request
  check_request-Comes d memory h =
      elim (Bool-cases (is_request (record { body = d; response = none }))) [
        | inl req ↦ rw req (after_parse-Comes d (k.parse d.dns_data d.knot_packet) memory h)
        | inr resp ↦ rw resp (finish_packet-Comes d h)
      ]

  module _ (address proto : ℕ) (wire : List ℕ) where
    after_question-Comes :
        (src dst : SockAddr) (r : KnotResult)
        → k.parse_question wire ≡ r
        → Comes (after_question k c address proto wire src dst r)
    unfolding after_question fill_packet
    after_question-Comes src dst (knot_ok asked) e =
        check_request-Comes (fill_packet k c address proto wire src dst asked)
          (ok.has_memory wire asked) (ok.has_id wire asked e)
    after_question-Comes src dst knot_enomem e = (refused malformed, refl)
    after_question-Comes src dst knot_error e = (refused malformed, refl)

    check_addresses-Comes :
        (src dst : Option SockAddr) → Comes (check_addresses k c address proto wire src dst)
    unfolding check_addresses
    check_addresses-Comes none dst = (refused network, refl)
    check_addresses-Comes (some src) none = (refused network, refl)
    check_addresses-Comes (some src) (some dst) =
        after_question-Comes src dst (k.parse_question wire) refl

  use_payload-Comes :
      (address proto : ℕ) (s : Skipped)
      → ((d : Payload) → s ≡ data_at d → IsReadable d)
      → Comes (use_payload k c address proto s)
  unfolding use_payload make_packet
  use_payload-Comes address proto (stopped r) readable = (refused r, refl)
  use_payload-Comes address proto (data_at d) readable =
      let (wire, copied) = copy_data-runs d d.pointer refl (readable d refl) in
      let (r, ran) =
        check_addresses-Comes address proto wire c.source_address c.destination_address in
      (r, >>=-some copied _ ∙ ran)

  from_transport-Comes :
      (address : ℕ) (t : Option (ℕ × ℕ)) → c.transport ≡ t → Comes (from_transport k c address t)
  unfolding from_transport
  from_transport-Comes address none e = (refused network, refl)
  from_transport-Comes address (some (proto, n)) e =
      elim (Bool-cases (ltb 0 c.fragment_offset || not (c.fragment_more == 0))) [
        | inl part ↦ (refused fragmented, rw part refl)
        | inr whole ↦
            let (s, skipped, readable) = skip_header-Skips proto n e in
            let (r, ran) = use_payload-Comes address proto s readable in
            (r, rw whole (>>=-some skipped _ ∙ ran))
      ]

  -- For a complete capture, as IsComplete says, a packet is made or a reason is given why not: no
  -- pointer is followed that is NULL or leads outside of the capture, and the program does not die.
  -- A TCP segment, neither SYN nor FIN, with fewer than two bytes captured behind its header is not
  -- complete.
  pub create_from_libtrace-returns :
      (address : ℕ) → (r : Created) × (create_from_libtrace k c address ≡ some r)
  unfolding create_from_libtrace
  create_from_libtrace-returns address = from_transport-Comes address c.transport refl

copy_data-faults :
    (bytes : List ℕ) (n : ℕ)
    → length bytes < n
    → copy_data (record { pointer = some bytes; remaining = n }) ≡ none
unfolding copy_data
copy_data-faults bytes n h =
    let over : leb n (length bytes) ≡ false = ground (arith, h) in rw over refl

-- A segment of a TCP connection, neither SYN nor FIN and not a fragment, of which fewer than two
-- bytes have been captured behind the TCP header: if the two bytes of memory there are the length
-- of the payload less two, then bytes are copied far behind the capture, as the number of bytes
-- that are left has wrapped around. The memory behind the header is taken to be shorter than 4 GiB.
pub create_from_libtrace-cut :
    (k : Knot) (c : Capture) (address captured : ℕ) (header : TcpHeader) (hi lo : ℕ)
    (bytes : List ℕ) (remaining : ℕ)
    → c.transport ≡ some (proto_tcp, captured)
    → (c.fragment_offset ≡ 0) × (c.fragment_more ≡ 0)
    → c.tcp ≡ some header
    → header.syn ≡ false
    → header.fin ≡ false
    → 2 ≤ captured
    → c.payload_from_tcp captured
      ≡ record { pointer = some (hi ∷ lo ∷ bytes); remaining = remaining }
    → remaining < 2
    → hi * 256 + lo + 2 ≡ c.payload_length
    → length bytes + 2 < 2 ^ 32
    → create_from_libtrace k c address ≡ none
unfolding create_from_libtrace from_transport use_payload make_packet skip_header
create_from_libtrace-cut k c address captured header hi lo bytes remaining t whole has syn fin
      enough payload cut announced small =
    let unbroken : (ltb 0 c.fragment_offset || not (c.fragment_more == 0)) ≡ false =
      ground (arith, whole.0, whole.1) in
    let same : (hi * 256 + lo + 2 == c.payload_length) ≡ true = ground (arith, announced) in
    let rest : Payload = record { pointer = some bytes; remaining = sub32 remaining 2 } in
    let skipped =
      skip_tcp-on c captured header (data_at rest) has syn fin enough
        (ap (skip_length c) payload ∙ skip_length-data c hi lo bytes remaining same) in
    let wrapped : length bytes < sub32 remaining 2 =
      omega (arith, sub32-cut remaining cut, small) in
    ap (from_transport k c address) t
    ∙ rw unbroken (
        >>=-some skipped (use_payload k c address proto_tcp)
        ∙ ap
            (λ (o : Option (List ℕ)). o >>= λ bytes.
              check_addresses k c address proto_tcp bytes c.source_address c.destination_address)
            (copy_data-faults bytes (sub32 remaining 2) wrapped))
