-- ===== src/Packet/Create/Checks.antt =====
-- The checks of `dns_packet_create_from_libtrace` behind the skipping of the headers.
use dns_collector.Prelude.{
  ℕ, ◌+◌, ◌^◌, ◌%◌, ◌≡◌, ◌∙◌, refl, ap, ap₂, arith, length, add64, false, not, Option, none, some,
  List, ◌==◌, inl, inr, Bool-cases, >>=-eq-some,
}
use dns_collector.Clock.{time_from_timeval}
use dns_collector.Packet.{SockAddr, Packet, PacketData, KnotPacket, is_request, is_response}
use dns_collector.Packet.Create.{
  Payload, KnotResult, knot_ok, knot_enomem, knot_error, fill_packet, Capture, Knot, created,
  copy_data, ttl_of, udp_sum_of, read16, finish_packet, after_parse, check_request, after_question,
  check_addresses, make_packet,
}
use dns_collector.Packet.Create.Spec.{hops, checksum, packet_of, Parses, response, request}

ttl_of-hops :
    (c : Capture) (ip_ttl ip6_hlim : Option ℕ)
    → c.ip_ttl ≡ ip_ttl
    → c.ip6_hlim ≡ ip6_hlim
    → ttl_of c ≡ hops ip_ttl ip6_hlim
unfolding ttl_of hops
ttl_of-hops c none none e h = rw (h, e) refl
ttl_of-hops c (some ttl) none e h = rw (h, e) refl
ttl_of-hops c none (some hlim) e h = rw h refl
ttl_of-hops c (some ttl) (some hlim) e h = rw h refl

udp_sum_of-checksum :
    (c : Capture) (check : Option ℕ) → c.udp_check ≡ check → udp_sum_of c ≡ checksum check
unfolding udp_sum_of checksum
udp_sum_of-checksum c none e = rw e refl
udp_sum_of-checksum c (some check) e = rw e refl

-- the fields that the code sets one after the other
pub fill_packet-packet_of :
    (k : Knot) (c : Capture) (address proto : ℕ) (wire : List ℕ) (id : ℕ) (src dst : SockAddr)
    (parsed : KnotPacket)
    → record {
      body = record (fill_packet k c address proto wire src dst parsed) { dns_id = id };
      response = none;
    }
      ≡ packet_of k c address proto wire id src dst parsed
unfolding fill_packet packet_of time_from_timeval
fill_packet-packet_of k c address proto wire id src dst parsed =
    let same : add64 (add64 k.sizeof_packet (length wire)) k.sizeof_knot
        ≡ (k.sizeof_packet + length wire + k.sizeof_knot) % 2 ^ 64 =
      omega arith in
    let d = fill_packet k c address proto wire src dst parsed in
    ap₂
      (λ ttl sum. record {
        body = record d { dns_id = id; net_ttl = ttl; net_udp_sum = sum };
        response = none;
      })
      (ttl_of-hops c c.ip_ttl c.ip6_hlim refl refl) (udp_sum_of-checksum c c.udp_check refl)
    ∙ ap
        (λ size. record {
          body = record d {
            dns_id = id;
            net_ttl = hops c.ip_ttl c.ip6_hlim;
            net_udp_sum = checksum c.udp_check;
            memory_size = size;
          };
          response = none;
        })
        same

module _ (k : Knot) where
  -- what the checks behind the skipping of headers have found
  unfoldable pub Checked : Capture → (address proto : ℕ) → List ℕ → Packet → Type 0
  Checked c address proto wire p =
      (asked : KnotPacket) × (parsed : KnotPacket) × (id : ℕ) × (src : SockAddr) × (dst : SockAddr)
      × (c.source_address ≡ some src)
      × (c.destination_address ≡ some dst)
      × Parses k wire asked parsed
      × (read16 wire ≡ some id)
      × (p ≡ packet_of k c address proto wire id src dst parsed)

  finish_packet-created :
      (d : PacketData) (p : Packet)
      → finish_packet k d ≡ some (created p)
      → (id : ℕ) × (read16 d.dns_data ≡ some id)
        × (p ≡ record { body = record d { dns_id = id }; response = none })
  unfolding finish_packet
  finish_packet-created d p h =
      let (id, at_start, e) = >>=-eq-some (read16 d.dns_data) _ h in (id, at_start, cc)

  module _ (c : Capture) (address proto : ℕ) (p : Packet) where
    module _ (wire : List ℕ) (src dst : SockAddr) (from : c.source_address ≡ some src)
        (to : c.destination_address ≡ some dst) where
      after_parse-created :
          (asked : KnotPacket) (r : KnotResult)
          → k.parse_question wire ≡ knot_ok asked
          → not (asked.qr == 0) ≡ false
          → k.parse wire asked ≡ r
          → after_parse k (fill_packet k c address proto wire src dst asked) r ≡ some (created p)
          → Checked c address proto wire p
      unfolding after_parse fill_packet Checked
      after_parse-created asked (knot_ok parsed) question req e h =
          let (id, at_start, e') =
            finish_packet-created (fill_packet k c address proto wire src dst parsed) p h in
          (
            asked,
            parsed,
            id,
            src,
            dst,
            from,
            to,
            request parsed question req e,
            at_start,
            e' ∙ fill_packet-packet_of k c address proto wire id src dst parsed,
          )
      after_parse-created asked knot_enomem question req e h = cc
      after_parse-created asked knot_error question req e h = cc

      after_question-created :
          (r : KnotResult)
          → k.parse_question wire ≡ r
          → after_question k c address proto wire src dst r ≡ some (created p)
          → Checked c address proto wire p
      unfolding after_question check_request fill_packet is_request is_response Checked
      after_question-created (knot_ok asked) question h = elim (Bool-cases (not (asked.qr == 0))) [
        | inl resp ↦
            let (id, at_start, e) =
              finish_packet-created (fill_packet k c address proto wire src dst asked) p
                (rw resp at h) in
            (
              asked,
              asked,
              id,
              src,
              dst,
              from,
              to,
              response question resp,
              at_start,
              e ∙ fill_packet-packet_of k c address proto wire id src dst asked,
            )
        | inr req ↦ after_parse-created asked (k.parse wire asked) question req refl (rw req at h)
      ]
      after_question-created knot_enomem question h = cc
      after_question-created knot_error question h = cc

    check_addresses-created :
        (wire : List ℕ) (from to : Option SockAddr)
        → c.source_address ≡ from
        → c.destination_address ≡ to
        → check_addresses k c address proto wire from to ≡ some (created p)
        → Checked c address proto wire p
    unfolding check_addresses
    check_addresses-created wire (some src) (some dst) from to h =
        after_question-created wire src dst from to (k.parse_question wire) refl h
    check_addresses-created wire none to from to' h = cc
    check_addresses-created wire (some src) none from to h = cc

    pub make_packet-created :
        (d : Payload)
        → make_packet k c address proto d ≡ some (created p)
        → (wire : List ℕ) × (copy_data d ≡ some wire) × Checked c address proto wire p
    unfolding make_packet
    make_packet-created d h =
        let (wire, copied, rest) = >>=-eq-some (copy_data d) _ h in
        (
          wire,
          copied,
          check_addresses-created wire c.source_address c.destination_address refl refl rest,
        )
